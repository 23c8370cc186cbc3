-- ===== src/Tests/Serving.antt =====
-- A setup of the webhooks of the tests, and the metrics of the workers.
use cain.Prelude.{ℕ, ◌+◌, ◌≡◌, refl, false, ◌&&◌, none, some, List, [], ◌∷◌, if◌then◌else◌}
use cain.Go.Text.{GoString, text, str_eq, trim_space}
use cain.Go.Errors.{ForeignError, ok}
use cain.Go.Maps.{GoMap, index, lookup, insert}
use cain.Kube.Secrets.{SecretClient}
use cain.Kube.Metrics.{MetricsCall, GroupVersionKind, resource_created, resource_deleted}
use cain.Secrets.Requests.{CreationRequest, DeletionRequest}
use cain.Secrets.Creator.{start_creator}
use cain.Secrets.Deleter.{start_deleter}
use cain.Secrets.Work.{OneCallEach, workers-OneCallEach}
use cain.Metrics.{CounterLibrary, Prometheus, record_calls, new_prometheus, made}
use cain.Metrics.Counts.{count, record_calls-count}
use cain.Webhook.Config.{new_container_resources}
use cain.Webhook.Review.{create_operation}
use cain.Webhook.Mutator.State.{Mutator, new_mutator}
use cain.Webhook.Validator.{Validator}
use cain.Setup.{
  EnvConfig, WebhookDependencies, Server, Libraries, get_pod_ns, ca_secret_data, serve,
  build_webhooks, setup_webhooks,
}
use cain.Setup.Webhooks.{IsReady, setup_webhooks-IsReady}
use cain.System.Deployed.{SecretServed, deployed_pod_asks}
use cain.Kube.Pods.{a_pod}
use cain.Tests.Fixtures.{
  answer, client, client-IsSettled, ca_secret, mutator, validator, review, pod, patched, patch,
  world, world-IsOpen, replica_set_ref,
}
use cain.Tests.Mutating.{pod-patched}

abbrev pub env : EnvConfig
env = record {
  container_resources_env = record {
    cpu_limit = text "1Gi";
    mem_limit = text "1Gi";
    cpu_request = [];
    mem_request = [];
  };
  port = text "8443";
  metrics_port = text "8080";
  tls_cert_file = text "tls.crt";
  tls_key_file = text "tls.key";
  ca_issuer = text "issuer";
  metrics_subsystem = [];
  metadata_domain = text "io";
  dns_domain = text "cluster.local";
  ca_secret = ca_secret;
  truststore_password = text "changeit";
  jvm_env_variable = text "JAVA_OPTS";
  redhat_init_image = text "redhat";
  redhat_init_tag = text "1";
  debian_init_image = text "debian";
  debian_init_tag = text "1";
}

abbrev pub stored : GoMap GoString
stored =
    some ((text "other", text "C") ∷ (text "root.crt", text "A") ∷ (text "sub.crt", text "B") ∷ [])

-- The library's webhooks are the validator and the mutator themselves.
abbrev pub lib : Libraries Validator Mutator (Unit {0}) GoString
lib = record {
  read_file = λ path. ok (text " cain-system\n");
  get_secret = λ namespace name. ok stored;
  parse_quantity = λ s. ok (record { canonical = s });
  version = text "0.1";
  new_validating_webhook = λ v. ok v;
  new_mutating_webhook = λ m. ok m;
  new_recorder = ok tt;
  validating_handler = λ recorder v. ok (text "val");
  mutating_handler = λ recorder m. ok (text "mut");
}

abbrev deps : WebhookDependencies
deps = record { sec_creation_chan = 0; sec_deletion_chan = 1; cert_creation_chan = 2 }

abbrev pub server : Server GoString
server = record {
  addr = text ":8443";
  routes = (text "/inject/validate", text "val") ∷ (text "/inject/mutate", text "mut") ∷ [];
}

setup_succeeds : setup_webhooks lib deps env ≡ ok server
unfolding setup_webhooks build_webhooks serve get_pod_ns trim_space ca_secret_data index lookup
    insert str_eq text new_container_resources
setup_succeeds = refl

setup_webhooks-IsReady_example : IsReady lib deps env server
setup_webhooks-IsReady_example = setup_webhooks-IsReady lib deps env server setup_succeeds

namespace_found : get_pod_ns lib.read_file ≡ ok (text "cain-system")
unfolding get_pod_ns trim_space text
namespace_found = refl

-- The ready server with the two webhooks of the tests.
abbrev ready : IsReady lib deps env server
unfolding new_mutator index lookup str_eq text
ready = record {
  contents = validator.ca_secret_data;
  built = record {
    validator = validator;
    mutator = mutator;
    val_wh = validator;
    mut_wh = mutator;
    made_val_wh = refl;
    made_mut_wh = refl;
    serves = record {
      recorder = tt;
      val_handler = text "val";
      mut_handler = text "mut";
      made_val_handler = refl;
      made_mut_handler = refl;
      routes = refl;
    };
    same_secret = refl;
    same_extractor = refl;
    secret = refl;
    contents_kept = refl;
    sec_creation = refl;
    sec_deletion = refl;
    cert_creation = refl;
  };
  namespace = text "cain-system";
  placed = namespace_found;
  stored = stored;
  read = refl;
  copied = ((text "A", refl, refl), ((text "B", refl, refl), tt));
  contents_map = (refl, (refl, tt));
}

deployed_pod_asks_example :
    SecretServed client answer client-IsSettled 2 lib deps env server ready
      (review create_operation false)
      patched
      world
unfolding ready new_mutator
deployed_pod_asks_example =
    deployed_pod_asks client answer client-IsSettled 2 lib deps env server ready none
      (review create_operation false) (review create_operation false) (a_pod pod) (a_pod patched)
      patch tt tt patched world world-IsOpen refl refl refl pod-patched refl

-- A counter vector as the function of its counts.
abbrev Vec : Type 0
Vec = GoString → GoString → ℕ

abbrev counters : CounterLibrary Vec (Unit {0})
counters = record {
  new_counter_vec = λ opts labels ns gvk. 0;
  inc = λ ns gvk v ns' gvk'. (if str_eq ns ns' && str_eq gvk gvk' then 1 else 0) + v ns' gvk';
  new_pedantic_registry = tt;
  register = λ v reg. (none, reg);
}

abbrev fresh : Prometheus Vec
fresh = record {
  already_exists = λ ns gvk. 0;
  create_error = λ ns gvk. 0;
  created = λ ns gvk. 0;
  deleted = λ ns gvk. 0;
  not_found = λ ns gvk. 0;
  delete_error = λ ns gvk. 0;
}

made_fresh : new_prometheus counters (text "pods") ≡ made fresh tt
unfolding new_prometheus
made_fresh = refl

abbrev some_calls : List MetricsCall
some_calls =
    resource_created (text "shop") (text "v1")
    ∷ resource_deleted (text "shop") (text "v1")
    ∷ resource_created (text "shop") (text "v1")
    ∷ []

record_calls-count_example :
    (record_calls counters some_calls fresh).created (text "shop") (text "v1")
    ≡ count (resource_created (text "shop") (text "v1")) some_calls + 0
record_calls-count_example =
    record_calls-count counters (λ ns gvk v. v ns gvk) (λ ns gvk ns' gvk' v. refl)
      (resource_created (text "shop") (text "v1")) some_calls fresh

abbrev lost_connection : ForeignError
lost_connection = record { already_exists = false; not_found = false; status = none }

-- An API server that accepts everything.
abbrev secret_client : SecretClient (Unit {0})
secret_client = record {
  create = λ namespace secret s. (none, s);
  delete = λ namespace name s. (some lost_connection, s);
}

abbrev creation : CreationRequest
creation = record {
  name = text "ca-web";
  namespace = text "shop";
  kvs = [];
  ctlr_ref = some replica_set_ref;
}

abbrev deletion : DeletionRequest
deletion = record { name = text "ca-web"; namespace = text "shop" }

abbrev kind_of : GroupVersionKind → GoString
kind_of gvk = gvk.kind

workers-OneCallEach_example :
    OneCallEach
      (text "shop" ∷ [])
      []
      (start_creator secret_client kind_of (creation ∷ []) (tt, [])).1
    × OneCallEach
        (text "shop" ∷ [])
        []
        (start_deleter secret_client kind_of (deletion ∷ []) (tt, [])).1
workers-OneCallEach_example =
    workers-OneCallEach secret_client kind_of (creation ∷ []) (deletion ∷ []) tt tt [] []
