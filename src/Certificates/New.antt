-- ===== src/Certificates/New.antt =====
-- The constructor of the worker of certificates/certcreator.go. A pointer or interface that may be nil is an
-- `Option`, and a channel stands for itself by its number: `make(chan)` takes the next one.
use cain.Prelude.{ℕ, ◌+◌, Option, none, some, []}
use cain.Go.Text.{GoString, text}
use cain.Go.Log.{Logger}
use cain.Go.Errors.{Error, Result, errors_new, ok, err, wrap, ◌>>=◌}
use cain.Kube.Metrics.{GroupVersionKind}
use cain.Certificates.Creator.{certificate_gvk}

abbrev pub err_no_logger : Error
err_no_logger = errors_new (text "logger cannot be nil")

abbrev pub err_no_metrics : Error
err_no_metrics = errors_new (text "metrics cannot be nil")

pub record Creator (C M : Type 0) : Type 0 where
  pub client : C
  pub issuer_name : GoString
  pub info_chan : ℕ
  pub secret_creation_chan : ℕ
  pub logger : Logger
  pub metrics : M
  pub gvk : GroupVersionKind

-- `in_cluster_config` is the answer of `rest.InClusterConfig`, and `new_for_config` is the function of
-- cert-manager's client.
module _ {X C M : Type 0} (in_cluster_config : Result X) (new_for_config : X → Result C) where
  -- The worker, its channel, and the number of the next channel.
  unfoldable pub new_creator :
      GoString → ℕ → Option Logger → Option M → ℕ → Result (Creator C M × ℕ × ℕ)
  new_creator issuer_name secret_creation_chan none metrics next = err err_no_logger
  new_creator issuer_name secret_creation_chan (some logger) none next = err err_no_metrics
  new_creator issuer_name secret_creation_chan (some logger) (some metrics) next = do
    config ← wrap (text "error creating in cluster config, err = %w") [] in_cluster_config
    client ← wrap (text "error creating K8S clientset, err = %w") [] (new_for_config config)
    ok (
      record {
        client = client;
        issuer_name = issuer_name;
        info_chan = next;
        secret_creation_chan = secret_creation_chan;
        logger = logger;
        metrics = metrics;
        gvk = certificate_gvk;
      },
      next,
      next + 1,
    )
