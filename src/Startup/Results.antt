-- ===== src/Startup/Results.antt =====
-- What the steps of a successful `run` have made, of cain.go.
use cain.Prelude.{ℕ, ◌+◌, ◌≡◌, some, [], ◌∷◌}
use cain.Go.Text.{text}
use cain.Go.Log.{Logger}
use cain.Go.Errors.{Result, ok, bind-wrap-ok}
use cain.Metrics.{Prometheus, NewPrometheus, made, refused}
use cain.Secrets.Creator.{secret_gvk}
use cain.Secrets.New.{Creator, Deleter}
use cain.Certificates.Creator.{certificate_gvk}
use cain.Certificates.New as CertWorkers
use cain.Setup.{EnvConfig, Server, WebhookDependencies, setup_webhooks}
use cain.Startup.{StartLibraries, Started, prometheus_result, start_servers}

pub prometheus_result-ok :
    {V R : Type 0} (n : NewPrometheus V R) (p : Prometheus V) (reg : R)
    → prometheus_result n ≡ ok (p, reg)
    → n ≡ made p reg
unfolding prometheus_result
prometheus_result-ok (made p' reg') p reg h = cc h
prometheus_result-ok (refused es) p reg h = cc h

ok-injective : {A : Type 0} (a b : A) → ◌≡◌ {A = Result A} (ok a) (ok b) → a ≡ b
ok-injective a b e = cc e

module _ {V R X K C W P VW MW RW H : Type 0} (lib : StartLibraries V R X K C W P VW MW RW H)
    (env : EnvConfig) (log : Logger) where
  abbrev pub started :
      Creator K (Prometheus V)
      → Deleter K (Prometheus V)
      → CertWorkers.Creator C (Prometheus V)
      → R
      → W
      → Server H
      → Started V K C W P H
  started secret_creator secret_deletor cert_creator registry watcher server = record {
    secret_creator = secret_creator;
    secret_deletor = secret_deletor;
    cert_creator = cert_creator;
    http_server = record {
      addr = b':' ∷ env.metrics_port;
      routes = (text "/metrics", (lib.metrics_handler registry).0) ∷ [];
    };
    watcher = watcher;
    webhook_server = server;
  }

  pub start_servers-ok :
      (client : K) (registry : R) (secret_creator : Creator K (Prometheus V))
      (secret_deletor : Deleter K (Prometheus V))
      (cert_creator : CertWorkers.Creator C (Prometheus V)) (deps : WebhookDependencies)
      (s : Started V K C W P H)
      → start_servers lib env log client registry secret_creator secret_deletor cert_creator deps
        ≡ ok s
      → (watcher : W) × (server : Server H) × (setup_webhooks
            (lib.webhook_libraries client (lib.metrics_handler registry).1 watcher)
            deps
            env
          ≡ ok server)
        × (started secret_creator secret_deletor cert_creator registry watcher server ≡ s)
  unfolding start_servers
  start_servers-ok client registry secret_creator secret_deletor cert_creator deps s h =
      let (watcher, watched, h1) =
        bind-wrap-ok (text "creating TLS cert watcher: %w")
          (lib.new_cert_watcher env.tls_cert_file env.tls_key_file) _ s h in
      let (server, set_up, h2) =
        bind-wrap-ok (text "setting up webhooks: %w")
          (setup_webhooks (lib.webhook_libraries client (lib.metrics_handler registry).1 watcher)
            deps env)
          _ s h1 in
      (watcher, server, set_up, ok-injective _ s h2)

  -- The worker of the certificates, with the channels of the given numbers.
  abbrev pub cert_worker : C → Logger → Prometheus V → ℕ → ℕ → CertWorkers.Creator C (Prometheus V)
  cert_worker client log metrics secret_creation_chan info_chan = record {
    client = client;
    issuer_name = env.ca_issuer;
    info_chan = info_chan;
    secret_creation_chan = secret_creation_chan;
    logger = log;
    metrics = metrics;
    gvk = certificate_gvk;
  }

  pub new_creator-ok :
      (log : Logger) (metrics : Prometheus V) (secret_creation_chan next : ℕ)
      (new : CertWorkers.Creator C (Prometheus V) × ℕ × ℕ)
      → CertWorkers.new_creator
          (lib.in_cluster_config 1)
          lib.new_cert_manager
          env.ca_issuer
          secret_creation_chan
          (some log)
          (some metrics)
          next
        ≡ ok new
      → (client : C) × ((cert_worker client log metrics secret_creation_chan next, next, next + 1)
          ≡ new)
  unfolding CertWorkers.new_creator
  new_creator-ok log metrics secret_creation_chan next new h =
      let (config, found, h1) =
        bind-wrap-ok (text "error creating in cluster config, err = %w") (lib.in_cluster_config 1) _
          new h in
      let (client, connected, h2) =
        bind-wrap-ok (text "error creating K8S clientset, err = %w") (lib.new_cert_manager config) _
          new h1 in
      (client, ok-injective _ new h2)

  -- The workers for secrets, with the channels of the given numbers.
  abbrev pub creator_worker : K → Logger → Prometheus V → ℕ → Creator K (Prometheus V)
  creator_worker client log metrics req_chan = record {
    client = client;
    req_chan = req_chan;
    logger = log;
    metrics = metrics;
    gvk = secret_gvk;
  }

  abbrev pub deleter_worker : K → Logger → Prometheus V → ℕ → Deleter K (Prometheus V)
  deleter_worker client log metrics req_chan = record {
    client = client;
    req_chan = req_chan;
    logger = log;
    metrics = metrics;
    gvk = secret_gvk;
  }

  abbrev pub chans : ℕ → ℕ → ℕ → WebhookDependencies
  chans a b c = record { sec_creation_chan = a; sec_deletion_chan = b; cert_creation_chan = c }
