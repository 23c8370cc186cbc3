-- ===== src/Secrets/Creator.antt =====
-- secrets/creator.go. The state is that of the API server, with the metrics calls made so far.
use cain.Prelude.{not, Option, none, some, List, [], ◌∷◌, ◌++◌, if◌then◌else◌}
use cain.Go.Text.{GoString, text, str_eq}
use cain.Go.Errors.{ForeignError}
use cain.Go.Maps.{copy}
use cain.Kube.Meta.{OwnerReference}
use cain.Kube.Secrets.{Secret, SecretClient, is_already_exists, is_status}
use cain.Kube.Metrics.{
  MetricsCall, GroupVersionKind, resource_already_exists, resource_create_error, resource_created,
}
use cain.Secrets.Requests.{CreationRequest}

abbrev pub secret_gvk : GroupVersionKind
secret_gvk = record { group = []; version = text "v1"; kind = text "Secret" }

-- `if ref != nil && ref.UID != "" { SetOwnerReferences({*ref}) }` on an object that has none.
unfoldable pub owned_by : Option OwnerReference → List OwnerReference
owned_by none = []
owned_by (some ref) = if not (str_eq ref.uid []) then ref ∷ [] else []

unfoldable pub new_secret : CreationRequest → Secret
unfolding owned_by copy
new_secret req = record {
  name = req.name;
  namespace = req.namespace;
  contents = copy [] req.kvs;
  owner_references = owned_by req.ctlr_ref;
}

-- The metrics call for the answer of the API server.
unfoldable pub creation_call : GoString → GoString → Option ForeignError → MetricsCall
creation_call ns gvk failed =
    if is_already_exists failed
    then resource_already_exists ns gvk
    else if is_status failed
    then resource_create_error ns gvk
    else elim failed [ some e ↦ resource_create_error ns gvk | none ↦ resource_created ns gvk ]

-- `gvk_string` is `GroupVersionKind.String` of the Kubernetes libraries.
module _ {S : Type 0} (client : SecretClient S) (gvk_string : GroupVersionKind → GoString) where
  unfoldable pub handle_creation : CreationRequest → S × List MetricsCall → S × List MetricsCall
  unfolding new_secret creation_call
  handle_creation req (s, calls) =
      let (failed, s') = client.create req.namespace (new_secret req) s in
      (s', calls ++ creation_call req.namespace (gvk_string secret_gvk) failed ∷ [])

  -- `Start`: the requests that come through the channel until it is closed.
  unfoldable pub start_creator : List CreationRequest → S × List MetricsCall → S × List MetricsCall
  unfolding handle_creation
  start_creator [] w = w
  start_creator (req ∷ reqs) w = start_creator reqs (handle_creation req w)
