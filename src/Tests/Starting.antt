-- ===== src/Tests/Starting.antt =====
-- The process starts, on libraries that take everything.
use cain.Prelude.{◌≡◌, refl, none, some, List, [], ◌∷◌}
use cain.Go.Text.{GoString, text, str_eq, trim_space}
use cain.Go.Log.{Logger}
use cain.Go.Maps.{index, insert, lookup}
use cain.Go.Errors.{errors_new, ok, err}
use cain.Metrics.{CounterLibrary, Prometheus, counter, counters_of, register_all, new_prometheus}
use cain.Secrets.New.{new_creator, new_deleter}
use cain.Certificates.New as CertWorkers
use cain.Webhook.Config.{new_container_resources}
use cain.Webhook.Mutator.State.{Mutator}
use cain.Webhook.Validator.{Validator}
use cain.Setup.{get_pod_ns, ca_secret_data, serve, build_webhooks, setup_webhooks}
use cain.Startup.{
  StartLibraries, Started, component, prometheus_result, start_servers, start_workers, start, run,
  main,
}
use cain.Startup.Results.{started, creator_worker, deleter_worker, cert_worker}
use cain.Startup.Wiring.{IsWired, start-IsWired}
use cain.Tests.Serving.{env, lib, server}

-- A registry is the list of the names of its counters.
abbrev counters : CounterLibrary GoString (List GoString)
counters = record {
  new_counter_vec = λ opts labels. opts.name;
  inc = λ ns gvk v. v;
  new_pedantic_registry = [];
  register = λ v reg. (none, v ∷ reg);
}

abbrev libraries :
    StartLibraries GoString
      (List GoString)
      GoString
      GoString
      GoString
      GoString
      GoString
      Validator
      Mutator
      (Unit {0})
      GoString
libraries = record {
  version = text "0.1";
  counters = counters;
  in_cluster_config = λ call. ok (text "config");
  new_clientset = λ config. ok (text "client");
  new_cert_manager = λ config. ok (text "cert client");
  new_cert_watcher = λ cert key. ok cert;
  metrics_handler = λ reg. (text "handler", reg);
  webhook_libraries = λ client reg watcher. lib;
}

abbrev log : Logger
log = record { attributes = [] }

abbrev metrics : Prometheus GoString
metrics = counters_of counters []

abbrev process : Started GoString GoString GoString GoString GoString GoString
process =
    started libraries env log
      (creator_worker libraries env log (text "client")
        (component libraries env log (text "secretcreator")) metrics 0)
      (deleter_worker libraries env log (text "client")
        (component libraries env log (text "secretdeleter")) metrics 1)
      (cert_worker libraries env log (text "cert client")
        (component libraries env log (text "certcreator")) metrics 0 2)
      [] (text "tls.crt") server

start_succeeds : start libraries env log ≡ ok process
unfolding start start_workers start_servers new_creator new_deleter CertWorkers.new_creator
    prometheus_result new_prometheus counters_of counter register_all setup_webhooks build_webhooks
    serve get_pod_ns trim_space ca_secret_data index lookup insert str_eq text
    new_container_resources
start_succeeds = refl

start-IsWired_example : IsWired libraries env log process
start-IsWired_example = start-IsWired libraries env log process start_succeeds

-- The exit status: of an environment that cannot be read, of a process that ends as it should, and of one
-- whose pool returns an error.
no_environment : main (err (errors_new [])) (λ e. log) (λ e l. none) ≡ 1
unfolding main
no_environment = refl

good_end : main (ok env) (λ e. log) (λ e l. run libraries e l (λ p. none)) ≡ 0
unfolding main run
good_end = rw (start_succeeds, main, run) refl

bad_end : main (ok env) (λ e. log) (λ e l. run libraries e l (λ p. some (errors_new []))) ≡ 1
unfolding main run
bad_end = rw (start_succeeds, main, run) refl
