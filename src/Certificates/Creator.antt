-- ===== src/Certificates/Creator.antt =====
-- certificates/certcreator.go: for each request, a secret with the truststore password and a
-- cert-manager certificate with a truststore.
use cain.Prelude.{true, Bool, Option, none, some, List, [], ◌∷◌, ◌++◌, if◌then◌else◌}
use cain.Go.Text.{GoString, text}
use cain.Go.Base64.{encode}
use cain.Go.Channel.{Channel, send}
use cain.Go.Errors.{ForeignError}
use cain.Go.Exec.{Exec, returns, panics, diverges}
use cain.Kube.Meta.{OwnerReference}
use cain.Kube.Secrets.{is_already_exists, is_status}
use cain.Kube.Metrics.{
  MetricsCall, GroupVersionKind, resource_already_exists, resource_create_error, resource_created,
}
use cain.Secrets.Requests.{CreationRequest}
use cain.Secrets.Creator.{owned_by}
use cain.Certificates.Names.{secret_name, truststore_password_secret_name}

pub record Info : Type 0 where
  pub pod_name : GoString
  pub namespace : GoString
  pub dns_names : List GoString
  pub truststore_password : GoString
  pub ctlr_ref : Option OwnerReference

-- `cmv1.Certificate` with the fields that the program sets.
pub record Certificate : Type 0 where
  pub name : GoString
  pub namespace : GoString
  pub common_name : GoString
  pub dns_names : List GoString
  pub secret_name : GoString
  pub issuer_name : GoString
  pub issuer_kind : GoString
  pub jks_create : Bool
  pub password_secret_name : GoString
  pub password_secret_key : GoString
  pub owner_references : List OwnerReference

abbrev pub certificate_gvk : GroupVersionKind
certificate_gvk = record {
  group = text "cert-manager.io";
  version = text "v1";
  kind = text "Certificate";
}

unfoldable pub password_request : Info → CreationRequest
password_request info = record {
  name = truststore_password_secret_name info.pod_name;
  namespace = info.namespace;
  kvs = (text "password", encode info.truststore_password) ∷ [];
  ctlr_ref = info.ctlr_ref;
}

-- `none` where `certInfo.DNSNames[0]` is out of range.
unfoldable pub new_certificate : GoString → Info → Option Certificate
unfolding owned_by
new_certificate issuer_name info = elim info.dns_names [
  | [] ↦ none
  | dns_name ∷ rest ↦ some (record {
    name = info.pod_name;
    namespace = info.namespace;
    common_name = dns_name;
    dns_names = info.dns_names;
    secret_name = secret_name info.pod_name;
    issuer_name = issuer_name;
    issuer_kind = text "ClusterIssuer";
    jks_create = true;
    password_secret_name = truststore_password_secret_name info.pod_name;
    password_secret_key = text "password";
    owner_references = owned_by info.ctlr_ref;
  })
]

unfoldable pub certificate_call : GoString → GoString → Option ForeignError → MetricsCall
certificate_call ns gvk failed =
    if is_already_exists failed
    then resource_already_exists ns gvk
    else if is_status failed
    then resource_already_exists ns gvk
    else elim failed [ some e ↦ resource_create_error ns gvk | none ↦ resource_created ns gvk ]

-- The state of the worker: the API server, the metrics calls, and the channel to the secret worker.
pub record Work (S : Type 0) : Type 0 where
  pub api : S
  pub calls : List MetricsCall
  pub sec_creation : Channel CreationRequest

-- `Certificates(namespace).Create` is the parameter `create`.
module _ {S : Type 0} (create : GoString → Certificate → S → Option ForeignError × S)
    (gvk_string : GroupVersionKind → GoString) (issuer_name : GoString) where
  unfoldable pub submit : Info → Certificate → Work S → Work S
  unfolding certificate_call
  submit info cert w =
      let (failed, api') = create info.namespace cert w.api in
      record w {
        api = api';
        calls = w.calls ++ certificate_call info.namespace (gvk_string certificate_gvk) failed ∷ [];
      }

  unfoldable pub handle_info : Info → Work S → Exec (Work S)
  unfolding submit
  handle_info info w = elim (send (password_request info) w.sec_creation) [
    | returns sec_creation' ↦ elim (new_certificate issuer_name info) [
      | none ↦ panics (text "index out of range [0] with length 0")
      | some cert ↦ returns (submit info cert (record w { sec_creation = sec_creation' }))
    ]
    | panics why ↦ panics why
    | diverges ↦ diverges
  ]

  unfoldable pub start_cert_creator : List Info → Work S → Exec (Work S)
  unfolding handle_info
  start_cert_creator [] w = returns w
  start_cert_creator (info ∷ infos) w = elim (handle_info info w) [
    | returns w' ↦ start_cert_creator infos w'
    | panics why ↦ panics why
    | diverges ↦ diverges
  ]
