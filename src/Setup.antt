-- ===== src/Setup.antt =====
-- cain.go: `getPodNS` and `setupWebhooks`, which read the CA secret and build the two webhooks.
pub mod CaData
pub mod Webhooks
use cain.Prelude.{ℕ, not, Option, none, some, List, [], ◌∷◌, if◌then◌else◌}
use cain.Go.Text.{GoString, text, str_eq, trim_space}
use cain.Go.Errors.{Error, Result, errors_new, errorf, ok, err, wrap, ◌>>=◌}
use cain.Go.Format.{sprintf}
use cain.Go.Maps.{Entries, GoMap, index, insert}
use cain.Kube.Pods.{Quantity}
use cain.Metadata.{new_extractor}
use cain.Webhook.Config.{CaSecret, ContainerResourcesEnv, new_container_resources}
use cain.Webhook.Mutator.State.{Mutator, new_mutator}
use cain.Webhook.Validator.{Validator, new_validator}

-- The fields of `envConfig` that `run` and the setup of the webhooks read.
pub record EnvConfig : Type 0 where
  pub container_resources_env : ContainerResourcesEnv
  pub port : GoString
  pub metrics_port : GoString
  pub tls_cert_file : GoString
  pub tls_key_file : GoString
  pub ca_issuer : GoString
  pub metrics_subsystem : GoString
  pub metadata_domain : GoString
  pub dns_domain : GoString
  pub ca_secret : CaSecret
  pub truststore_password : GoString
  pub jvm_env_variable : GoString
  pub redhat_init_image : GoString
  pub redhat_init_tag : GoString
  pub debian_init_image : GoString
  pub debian_init_tag : GoString

abbrev pub err_secret_key_missing : Error
err_secret_key_missing = errors_new (text "secret is missing key")

abbrev pub err_empty_namespace : Error
err_empty_namespace = errors_new (text "namespace is empty")

abbrev pub namespace_file : GoString
namespace_file = text "/var/run/secrets/kubernetes.io/serviceaccount/namespace"

-- `read_file` is `os.ReadFile`.
unfoldable pub get_pod_ns : (GoString → Result GoString) → Result GoString
get_pod_ns read_file = do
  contents ← wrap (text "reading service account namespace file: %w") [] (read_file namespace_file)
  elim (trim_space contents) [ [] ↦ err err_empty_namespace | c ∷ rest ↦ ok (c ∷ rest) ]

-- The loop over the keys of the CA secret; `stored` is the data of the secret, and `acc` the map so far.
unfoldable pub ca_secret_data :
    GoMap GoString → List GoString → Entries GoString → Result (Entries GoString)
ca_secret_data stored [] acc = ok acc
ca_secret_data stored (key ∷ keys) acc = elim (index stored key) [
  | none ↦
      err (errorf (text "default CA secret value for key=%s: %w") (key ∷ []) err_secret_key_missing)
  | some value ↦ ca_secret_data stored keys (insert key value acc)
]

unfoldable pub init_image : GoString → GoString → GoString → GoString
init_image image tag version =
    let by_version = sprintf (text "%s:%s") (image ∷ version ∷ []) in
    if not (str_eq tag []) then sprintf (text "%s:%s") (image ∷ tag ∷ []) else by_version

-- The address and the handlers of the HTTPS server.
pub record Server (H : Type 0) : Type 0 where
  pub addr : GoString
  pub routes : Entries H

-- `webhookDependencies`: the channels to the workers, by their numbers. The others are in `Libraries`.
pub record WebhookDependencies : Type 0 where
  pub sec_creation_chan : ℕ
  pub sec_deletion_chan : ℕ
  pub cert_creation_chan : ℕ

-- What the setup calls: the files, the API server, the version of the build, and the libraries. The
-- types are those of the library's validating and mutating webhooks, of its recorder and of handlers.
pub record Libraries (V M R H : Type 0) : Type 0 where
  pub read_file : GoString → Result GoString
  -- the data of a secret of a namespace
  pub get_secret : GoString → GoString → Result (GoMap GoString)
  pub parse_quantity : GoString → Result Quantity
  pub version : GoString
  pub new_validating_webhook : Validator → Result V
  pub new_mutating_webhook : Mutator → Result M
  pub new_recorder : Result R
  pub validating_handler : R → V → Result H
  pub mutating_handler : R → M → Result H

module _ {V M R H : Type 0} (lib : Libraries V M R H) (deps : WebhookDependencies)
    (env : EnvConfig) where
  -- From the recorder on: the handlers and the server.
  unfoldable pub serve : V → M → Result (Server H)
  serve val_wh mut_wh = do
    recorder ← wrap (text "creating webhook metrics recorder: %w") [] lib.new_recorder
    val_handler ←
        wrap (text "creating validating webhook handler: %w") []
          (lib.validating_handler recorder val_wh)
    mut_handler ←
        wrap (text "creating mutating webhook handler: %w") []
          (lib.mutating_handler recorder mut_wh)
    ok (record {
      addr = b':' ∷ env.port;
      routes = (text "/inject/validate", val_handler) ∷ (text "/inject/mutate", mut_handler) ∷ [];
    })

  -- From the extractor on: the two webhooks with the data of the CA secret.
  unfoldable pub build_webhooks : Entries GoString → Result (Server H)
  build_webhooks contents = do
    let extractor = new_extractor env.metadata_domain env.dns_domain env.truststore_password
    val_wh ← wrap (text "creating validating webhook: %w") [] (
        lib.new_validating_webhook (
          new_validator extractor env.ca_secret contents deps.sec_creation_chan
            deps.sec_deletion_chan deps.cert_creation_chan))
    resources ←
        wrap (text "parsing container resources: %w") []
          (new_container_resources lib.parse_quantity env.container_resources_env)
    mut_wh ← wrap (text "creating mutating webhook: %w") [] (
        lib.new_mutating_webhook (
          new_mutator extractor env.ca_secret
            (init_image env.debian_init_image env.debian_init_tag lib.version)
            (init_image env.redhat_init_image env.redhat_init_tag lib.version) env.jvm_env_variable
            resources))
    serve val_wh mut_wh

  unfoldable pub setup_webhooks : Result (Server H)
  setup_webhooks = do
    execution_namespace ←
        wrap (text "getting Pod execution namespace: %w") [] (get_pod_ns lib.read_file)
    stored ←
        wrap (text "getting default CA secret from K8s: %w") []
          (lib.get_secret execution_namespace env.ca_secret.name)
    contents ← ca_secret_data stored env.ca_secret.keys []
    build_webhooks contents
