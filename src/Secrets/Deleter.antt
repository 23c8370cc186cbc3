-- ===== src/Secrets/Deleter.antt =====
-- secrets/deleter.go. The state is that of the API server, with the metrics calls made so far.
use cain.Prelude.{Option, List, [], ◌∷◌, ◌++◌, if◌then◌else◌}
use cain.Go.Text.{GoString}
use cain.Go.Errors.{ForeignError}
use cain.Kube.Secrets.{SecretClient, is_not_found, is_status}
use cain.Kube.Metrics.{
  MetricsCall, GroupVersionKind, resource_not_found, resource_deleted, resource_delete_error,
}
use cain.Secrets.Requests.{DeletionRequest}
use cain.Secrets.Creator.{secret_gvk}

unfoldable pub deletion_call : GoString → GoString → Option ForeignError → MetricsCall
deletion_call ns gvk failed =
    if is_not_found failed
    then resource_not_found ns gvk
    else if is_status failed
    then resource_delete_error ns gvk
    else resource_deleted ns gvk

module _ {S : Type 0} (client : SecretClient S) (gvk_string : GroupVersionKind → GoString) where
  unfoldable pub handle_deletion : DeletionRequest → S × List MetricsCall → S × List MetricsCall
  unfolding deletion_call
  handle_deletion req (s, calls) =
      let (failed, s') = client.delete req.namespace req.name s in
      (s', calls ++ deletion_call req.namespace (gvk_string secret_gvk) failed ∷ [])

  unfoldable pub start_deleter : List DeletionRequest → S × List MetricsCall → S × List MetricsCall
  unfolding handle_deletion
  start_deleter [] w = w
  start_deleter (req ∷ reqs) w = start_deleter reqs (handle_deletion req w)
