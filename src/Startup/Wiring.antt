-- ===== src/Startup/Wiring.antt =====
-- How the parts of the process are connected when `run` starts its pool.
use cain.Prelude.{ℕ, ◌+◌, ◌≡◌, ◌≢◌, refl, sym, subst, some, [], ◌∷◌, arith}
use cain.Go.Text.{text}
use cain.Go.Log.{Logger}
use cain.Go.Errors.{ok, bind-wrap-ok}
use cain.Metrics.{Prometheus, made, new_prometheus}
use cain.Secrets.New.{new_creator, new_deleter}
use cain.Certificates.New as CertWorkers
use cain.Setup.{EnvConfig, Server, WebhookDependencies, setup_webhooks}
use cain.Setup.Webhooks.{IsReady, setup_webhooks-IsReady}
use cain.Startup.Results.{
  started, cert_worker, creator_worker, deleter_worker, chans, start_servers-ok, new_creator-ok,
  prometheus_result-ok,
}
use cain.Startup.{StartLibraries, Started, prometheus_result, component, start_workers, start}

module _ {V R X K C W P VW MW RW H : Type 0} (lib : StartLibraries V R X K C W P VW MW RW H)
    (env : EnvConfig) (log : Logger) where
  -- The channels that the workers read.
  abbrev pub channels_of : Started V K C W P H → WebhookDependencies
  channels_of s = record {
    sec_creation_chan = s.secret_creator.req_chan;
    sec_deletion_chan = s.secret_deletor.req_chan;
    cert_creation_chan = s.cert_creator.info_chan;
  }

  pub record IsConnected (s : Started V K C W P H) : Type 0 where
    pub handed : s.cert_creator.secret_creation_chan ≡ s.secret_creator.req_chan
    pub two_secret_chans : s.secret_creator.req_chan ≢ s.secret_deletor.req_chan
    pub creation_chans : s.secret_creator.req_chan ≢ s.cert_creator.info_chan
    pub deletion_chans : s.secret_deletor.req_chan ≢ s.cert_creator.info_chan
    pub issuer : s.cert_creator.issuer_name ≡ env.ca_issuer
    pub client : s.secret_deletor.client ≡ s.secret_creator.client

  -- All three workers count by `metrics`, and the metrics server shows its registry; the webhook server is
  -- ready, as its setup makes it, with the channels that the workers read.
  pub record IsServed (metrics : Prometheus V) (registry : R) (s : Started V K C W P H)
      : Type 0 where
    pub creator_counts : s.secret_creator.metrics ≡ metrics
    pub deletor_counts : s.secret_deletor.metrics ≡ metrics
    pub certs_count : s.cert_creator.metrics ≡ metrics
    pub shown : s.http_server.routes ≡ (text "/metrics", (lib.metrics_handler registry).0) ∷ []
    pub ready :
        IsReady
          (lib.webhook_libraries s.secret_creator.client (lib.metrics_handler registry).1 s.watcher)
          (channels_of s)
          env
          s.webhook_server

  pub record IsWired (s : Started V K C W P H) : Type 0 where
    pub connected : IsConnected s
    pub metrics : Prometheus V
    pub registry : R
    pub counted : new_prometheus lib.counters env.metrics_subsystem ≡ made metrics registry
    pub served : IsServed metrics registry s

  started-IsServed :
      (metrics : Prometheus V) (registry : R) (client : K) (cert_client : C)
      (log1 log2 log3 : Logger) (watcher : W) (server : Server H)
      → setup_webhooks
          (lib.webhook_libraries client (lib.metrics_handler registry).1 watcher)
          (chans lib env log 0 (0 + 1) (0 + 1 + 1))
          env
        ≡ ok server
      → IsConnected (
          started lib env log
            (creator_worker lib env log client log1 metrics 0)
            (deleter_worker lib env log client log2 metrics (0 + 1))
            (cert_worker lib env log cert_client log3 metrics 0 (0 + 1 + 1))
            registry
            watcher
            server)
        × IsServed metrics registry (
            started lib env log
              (creator_worker lib env log client log1 metrics 0)
              (deleter_worker lib env log client log2 metrics (0 + 1))
              (cert_worker lib env log cert_client log3 metrics 0 (0 + 1 + 1))
              registry
              watcher
              server)
  started-IsServed metrics registry client cert_client log1 log2 log3 watcher server set_up = (
    record {
      handed = refl;
      two_secret_chans = omega arith;
      creation_chans = omega arith;
      deletion_chans = omega arith;
      issuer = refl;
      client = refl;
    },
    record {
      creator_counts = refl;
      deletor_counts = refl;
      certs_count = refl;
      shown = refl;
      ready =
          setup_webhooks-IsReady
            (lib.webhook_libraries client (lib.metrics_handler registry).1 watcher)
            (chans lib env log 0 (0 + 1) (0 + 1 + 1)) env server set_up;
    },
  )

  start_workers-IsServed :
      (metrics : Prometheus V) (registry : R) (client : K) (s : Started V K C W P H)
      → start_workers lib env log metrics registry client ≡ ok s
      → IsConnected s × IsServed metrics registry s
  unfolding start_workers new_creator new_deleter
  start_workers-IsServed metrics registry client s h =
      let log1 = component lib env log (text "secretcreator") in
      let log2 = component lib env log (text "secretdeleter") in
      let creator = creator_worker lib env log client log1 metrics 0 in
      let deletor = deleter_worker lib env log client log2 metrics (0 + 1) in
      let (cert, new_cert, h1) =
        bind-wrap-ok (text "creating certificate creator: %w")
          (CertWorkers.new_creator (lib.in_cluster_config 1) lib.new_cert_manager env.ca_issuer 0
            (some (component lib env log (text "certcreator"))) (some metrics) (0 + 1 + 1))
          _ s h in
      let (cert_client, is_cert) =
        new_creator-ok lib env log _ metrics 0 (0 + 1 + 1) cert new_cert in
      let (watcher, server, set_up, is_started) =
        start_servers-ok lib env log client registry creator deletor cert.0
          (chans lib env log 0 (0 + 1) cert.1) s h1 in
      let same_setup =
        subst
          (λ (c : CertWorkers.Creator C (Prometheus V) × ℕ × ℕ).
            setup_webhooks (lib.webhook_libraries client (lib.metrics_handler registry).1 watcher)
              (chans lib env log 0 (0 + 1) c.1) env
            ≡ ok server)
          (sym is_cert) set_up in
      subst (λ (q : Started V K C W P H). IsConnected q × IsServed metrics registry q) is_started
        (subst
          (λ (c : CertWorkers.Creator C (Prometheus V) × ℕ × ℕ).
            IsConnected (started lib env log creator deletor c.0 registry watcher server)
            × IsServed metrics registry
                (started lib env log creator deletor c.0 registry watcher server))
          is_cert
          (started-IsServed metrics registry client cert_client log1 log2 _ watcher server
            same_setup))

  -- If the first half of `run` succeeds, the parts of the process are connected as they should be. The
  -- webhook server is ready, with the data of the CA secret as its setup makes it, and the validating webhook
  -- that it serves sends on the very channels that the three workers read; these are three different
  -- channels. The worker of the certificates asks for its password secrets on the channel of the worker that
  -- creates secrets, and uses the issuer of the environment. All three workers count by the same counters,
  -- and the metrics server shows the registry in which these have been registered.
  pub start-IsWired : (s : Started V K C W P H) → start lib env log ≡ ok s → IsWired s
  unfolding start
  start-IsWired s h =
      let ((metrics, registry), counted, h1) =
        bind-wrap-ok (text "setting up prometheus metrics: %w")
          (prometheus_result (new_prometheus lib.counters env.metrics_subsystem)) _ s h in
      let (config, found, h2) =
        bind-wrap-ok (text "getting K8s in-cluster config: %w") (lib.in_cluster_config 0) _ s h1 in
      let (client, connected, h3) =
        bind-wrap-ok (text "creating K8s client: %w") (lib.new_clientset config) _ s h2 in
      let (is_connected, is_served) = start_workers-IsServed metrics registry client s h3 in
      record {
        connected = is_connected;
        metrics = metrics;
        registry = registry;
        counted = prometheus_result-ok _ metrics registry counted;
        served = is_served;
      }
