-- ===== src/Setup/Webhooks.antt =====
-- What a successful setup has built.
use cain.Prelude.{◌≡◌, refl, [], ◌∷◌, All}
use cain.Go.Text.{GoString, text}
use cain.Go.Errors.{Result, ok, bind-ok, bind-wrap-ok}
use cain.Go.Maps.{Entries, GoMap}
use cain.Go.Maps.Copy.{IsMap}
use cain.Metadata.{new_extractor}
use cain.Webhook.Config.{new_container_resources}
use cain.Webhook.Mutator.State.{Mutator, new_mutator}
use cain.Webhook.Validator.{Validator, new_validator}
use cain.Setup.{
  EnvConfig, WebhookDependencies, Server, Libraries, get_pod_ns, ca_secret_data, init_image, serve,
  build_webhooks, setup_webhooks,
}
use cain.Setup.CaData.{IsCopied, ca_secret_data-IsCopied, ca_secret_data-IsMap}

module _ {V M R H : Type 0} (lib : Libraries V M R H) (deps : WebhookDependencies)
    (env : EnvConfig) where
  -- The server serves these two webhooks.
  pub record Serves (val_wh : V) (mut_wh : M) (server : Server H) : Type 0 where
    pub recorder : R
    pub val_handler : H
    pub mut_handler : H
    pub made_val_handler : lib.validating_handler recorder val_wh ≡ ok val_handler
    pub made_mut_handler : lib.mutating_handler recorder mut_wh ≡ ok mut_handler
    pub routes :
        server.routes
        ≡ (text "/inject/validate", val_handler) ∷ (text "/inject/mutate", mut_handler) ∷ []

  -- It serves those of this validator, which has the given data, and of this mutator.
  pub record Built (contents : Entries GoString) (server : Server H) : Type 0 where
    pub validator : Validator
    pub mutator : Mutator
    pub val_wh : V
    pub mut_wh : M
    pub made_val_wh : lib.new_validating_webhook validator ≡ ok val_wh
    pub made_mut_wh : lib.new_mutating_webhook mutator ≡ ok mut_wh
    pub serves : Serves val_wh mut_wh server
    pub same_secret : validator.ca_secret ≡ mutator.ca_secret
    pub same_extractor : validator.extractor ≡ mutator.extractor
    pub secret : mutator.ca_secret ≡ env.ca_secret
    pub contents_kept : validator.ca_secret_data ≡ contents
    pub sec_creation : validator.sec_creation_chan ≡ deps.sec_creation_chan
    pub sec_deletion : validator.sec_deletion_chan ≡ deps.sec_deletion_chan
    pub cert_creation : validator.cert_creation_chan ≡ deps.cert_creation_chan

  -- The server serves two webhooks with the CA secret and the extractor of the environment, and the
  -- validating one has the value of each key of the CA secret, read in the namespace of the process.
  pub record IsReady (server : Server H) : Type 0 where
    pub contents : Entries GoString
    pub built : Built contents server
    pub namespace : GoString
    pub placed : get_pod_ns lib.read_file ≡ ok namespace
    pub stored : GoMap GoString
    pub read : lib.get_secret namespace env.ca_secret.name ≡ ok stored
    pub copied : All (IsCopied stored contents) env.ca_secret.keys
    pub contents_map : IsMap contents

  serve-Serves :
      (val_wh : V) (mut_wh : M) (server : Server H)
      → serve lib deps env val_wh mut_wh ≡ ok server
      → Serves val_wh mut_wh server
  unfolding serve
  serve-Serves val_wh mut_wh server h =
      let (recorder, made, h1) =
        bind-wrap-ok (text "creating webhook metrics recorder: %w") lib.new_recorder _ server h in
      let (val_handler, made_val, h2) =
        bind-wrap-ok (text "creating validating webhook handler: %w")
          (lib.validating_handler recorder val_wh) _ server h1 in
      let (mut_handler, made_mut, h3) =
        bind-wrap-ok (text "creating mutating webhook handler: %w")
          (lib.mutating_handler recorder mut_wh) _ server h2 in
      record {
        recorder = recorder;
        val_handler = val_handler;
        mut_handler = mut_handler;
        made_val_handler = made_val;
        made_mut_handler = made_mut;
        routes = routes_of _ server h3;
      }
    where
      routes_of : (a b : Server H) → ◌≡◌ {A = Result (Server H)} (ok a) (ok b) → b.routes ≡ a.routes
      routes_of a b e = cc e

  build_webhooks-Built :
      (contents : Entries GoString) (server : Server H)
      → build_webhooks lib deps env contents ≡ ok server
      → Built contents server
  unfolding build_webhooks new_validator new_mutator
  build_webhooks-Built contents server h =
      let extractor = new_extractor env.metadata_domain env.dns_domain env.truststore_password in
      let validator =
        new_validator extractor env.ca_secret contents deps.sec_creation_chan deps.sec_deletion_chan
          deps.cert_creation_chan in
      let (val_wh, made_val, h1) =
        bind-wrap-ok (text "creating validating webhook: %w") (lib.new_validating_webhook validator)
          _ server h in
      let (resources, parsed, h2) =
        bind-wrap-ok (text "parsing container resources: %w")
          (new_container_resources lib.parse_quantity env.container_resources_env) _ server h1 in
      let mutator =
        new_mutator extractor env.ca_secret
          (init_image env.debian_init_image env.debian_init_tag lib.version)
          (init_image env.redhat_init_image env.redhat_init_tag lib.version) env.jvm_env_variable
          resources in
      let (mut_wh, made_mut, h3) =
        bind-wrap-ok (text "creating mutating webhook: %w") (lib.new_mutating_webhook mutator) _
          server h2 in
      record {
        validator = validator;
        mutator = mutator;
        val_wh = val_wh;
        mut_wh = mut_wh;
        made_val_wh = made_val;
        made_mut_wh = made_mut;
        serves = serve-Serves val_wh mut_wh server h3;
        same_secret = refl;
        same_extractor = refl;
        secret = refl;
        contents_kept = refl;
        sec_creation = refl;
        sec_deletion = refl;
        cert_creation = refl;
      }

  -- A setup that succeeds has found the namespace, the CA secret with all its keys, and serves, under
  -- their two paths, a validating and a mutating webhook with the same CA secret and extractor, the
  -- validating one with the value of every key, on the channels that the setup was given.
  pub setup_webhooks-IsReady :
      (server : Server H) → setup_webhooks lib deps env ≡ ok server → IsReady server
  unfolding setup_webhooks
  setup_webhooks-IsReady server h =
      let (namespace, placed, h1) =
        bind-wrap-ok (text "getting Pod execution namespace: %w") (get_pod_ns lib.read_file) _
          server h in
      let (stored, read, h2) =
        bind-wrap-ok (text "getting default CA secret from K8s: %w")
          (lib.get_secret namespace env.ca_secret.name) _ server h1 in
      let (contents, made, h3) =
        bind-ok (ca_secret_data stored env.ca_secret.keys []) _ server h2 in
      record {
        contents = contents;
        built = build_webhooks-Built contents server h3;
        namespace = namespace;
        placed = placed;
        stored = stored;
        read = read;
        copied = ca_secret_data-IsCopied stored env.ca_secret.keys [] contents made;
        contents_map = ca_secret_data-IsMap stored env.ca_secret.keys [] contents made tt;
      }
