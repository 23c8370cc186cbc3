-- ===== src/Startup.antt =====
-- `main` and the first half of `run` of cain.go: the constructors of the metrics, the clients, the workers and
-- the servers, up to the pool of goroutines.
pub mod Results
pub mod Wiring
use cain.Prelude.{ℕ, Option, none, some, List, [], ◌∷◌}
use cain.Go.Text.{GoString, text}
use cain.Go.Log.{Logger, with_attribute}
use cain.Go.Errors.{Error, Errors, end, entry, joined, errorf, Result, ok, err, wrap, ◌>>=◌}
use cain.Metrics.{CounterLibrary, Prometheus, NewPrometheus, made, refused, new_prometheus}
use cain.Secrets.New.{Creator, Deleter, new_creator, new_deleter}
use cain.Certificates.New as CertWorkers
use cain.Setup.{EnvConfig, Server, Libraries, WebhookDependencies, setup_webhooks}

-- The libraries that `run` calls. `V` and `R` are the counters and the registry, `X` the configuration of the
-- cluster, `K` and `C` the clients of Kubernetes and cert-manager, `W` the watcher of the TLS files, `P` an
-- HTTP handler of the metrics; the others are as in `Libraries`.
pub record StartLibraries (V R X K C W P VW MW RW H : Type 0) : Type 0 where
  pub version : GoString
  pub counters : CounterLibrary V R
  -- the answers of `rest.InClusterConfig`, by the number of the call
  pub in_cluster_config : ℕ → Result X
  pub new_clientset : X → Result K
  pub new_cert_manager : X → Result C
  pub new_cert_watcher : GoString → GoString → Result W
  -- `InstrumentMetricHandler` of `HandlerFor`, which also registers metrics of its own
  pub metrics_handler : R → P × R
  -- what the setup of the webhooks calls, on the client, the registry and the watcher
  pub webhook_libraries : K → R → W → Libraries VW MW RW H

-- What the pool of goroutines runs.
pub record Started (V K C W P H : Type 0) : Type 0 where
  pub secret_creator : Creator K (Prometheus V)
  pub secret_deletor : Deleter K (Prometheus V)
  pub cert_creator : CertWorkers.Creator C (Prometheus V)
  pub http_server : Server P
  pub watcher : W
  pub webhook_server : Server H

-- `errors.Join` of errors that are not nil.
abbrev pub errors_of : List Error → Errors
errors_of [] = end
errors_of (e ∷ es) = entry e (errors_of es)

-- The result of `NewPrometheus` as a Go pair.
unfoldable pub prometheus_result : {V R : Type 0} → NewPrometheus V R → Result (Prometheus V × R)
prometheus_result (made p reg) = ok (p, reg)
prometheus_result (refused es) =
    err (errorf (text "registering metrics collectors: %w") [] (joined (errors_of es)))

module _ {V R X K C W P VW MW RW H : Type 0} (lib : StartLibraries V R X K C W P VW MW RW H)
    (env : EnvConfig) (log : Logger) where
  -- `log.With("component", name)`, after `log.With("version", ...)`
  abbrev pub component : GoString → Logger
  component name =
      with_attribute (text "component") name (with_attribute (text "version") lib.version log)

  -- From the handler of the metrics on: the two servers.
  unfoldable pub start_servers :
      K
      → R
      → Creator K (Prometheus V)
      → Deleter K (Prometheus V)
      → CertWorkers.Creator C (Prometheus V)
      → WebhookDependencies
      → Result (Started V K C W P H)
  start_servers client reg secret_creator secret_deletor cert_creator deps = do
    let (handler, reg') = lib.metrics_handler reg
    watcher ←
        wrap (text "creating TLS cert watcher: %w") []
          (lib.new_cert_watcher env.tls_cert_file env.tls_key_file)
    webhook_server ←
        wrap (text "setting up webhooks: %w") []
          (setup_webhooks (lib.webhook_libraries client reg' watcher) deps env)
    ok (record {
      secret_creator = secret_creator;
      secret_deletor = secret_deletor;
      cert_creator = cert_creator;
      http_server = record {
        addr = b':' ∷ env.metrics_port;
        routes = (text "/metrics", handler) ∷ [];
      };
      watcher = watcher;
      webhook_server = webhook_server;
    })

  -- The three workers.
  unfoldable pub start_workers : Prometheus V → R → K → Result (Started V K C W P H)
  unfolding start_servers new_creator new_deleter CertWorkers.new_creator
  start_workers metrics reg client = do
    (secret_creator, sec_creation_chan, next) ←
        wrap (text "creating secret creator: %w") []
          (new_creator client (some (component (text "secretcreator"))) (some metrics) 0)
    (secret_deletor, sec_deletion_chan, next') ←
        wrap (text "creating secret creator: %w") []
          (new_deleter client (some (component (text "secretdeleter"))) (some metrics) next)
    (cert_creator, cert_creation_chan, next'') ← wrap (text "creating certificate creator: %w") [] (
        CertWorkers.new_creator (lib.in_cluster_config 1) lib.new_cert_manager env.ca_issuer
          sec_creation_chan (some (component (text "certcreator"))) (some metrics) next')
    start_servers client reg secret_creator secret_deletor cert_creator (record {
      sec_creation_chan = sec_creation_chan;
      sec_deletion_chan = sec_deletion_chan;
      cert_creation_chan = cert_creation_chan;
    })

  unfoldable pub start : Result (Started V K C W P H)
  unfolding start_workers
  start = do
    (metrics, reg) ←
        wrap (text "setting up prometheus metrics: %w") []
          (prometheus_result (new_prometheus lib.counters env.metrics_subsystem))
    config ← wrap (text "getting K8s in-cluster config: %w") [] (lib.in_cluster_config 0)
    client ← wrap (text "creating K8s client: %w") [] (lib.new_clientset config)
    start_workers metrics reg client

  -- `run`; `wait` is what the pool of goroutines returns, where it does.
  unfoldable pub run : (Started V K C W P H → Option Error) → Option Error
  unfolding start
  run wait = elim start [
    | err e ↦ some e
    | ok started ↦ elim (wait started) [
      | none ↦ none
      | some e ↦ some (errorf (text "error group had an error: %w") [] e)
    ]
  ]

-- The exit status of the process; `processed` is what `envconfig.Process` has made of the environment, and
-- `new_logger` the logger for it.
unfoldable pub main :
    Result EnvConfig → (EnvConfig → Logger) → (EnvConfig → Logger → Option Error) → ℕ
main (err e) new_logger run = 1
main (ok env) new_logger run = elim (run env (new_logger env)) [ some e ↦ 1 | none ↦ 0 ]
