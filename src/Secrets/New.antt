-- ===== src/Secrets/New.antt =====
-- The constructors of the workers, of secrets/creator.go and secrets/deleter.go. A pointer or interface that
-- may be nil is an `Option`, and a channel stands for itself by its number: `make(chan)` takes the next one.
use cain.Prelude.{ℕ, ◌+◌, Option, none, some}
use cain.Go.Text.{text}
use cain.Go.Log.{Logger}
use cain.Go.Errors.{Error, Result, errors_new, ok, err}
use cain.Kube.Metrics.{GroupVersionKind}
use cain.Secrets.Creator.{secret_gvk}

abbrev pub err_no_logger : Error
err_no_logger = errors_new (text "logger cannot be nil")

abbrev pub err_no_metrics : Error
err_no_metrics = errors_new (text "metrics cannot be nil")

pub record Creator (K M : Type 0) : Type 0 where
  pub client : K
  pub req_chan : ℕ
  pub logger : Logger
  pub metrics : M
  pub gvk : GroupVersionKind

pub record Deleter (K M : Type 0) : Type 0 where
  pub client : K
  pub req_chan : ℕ
  pub logger : Logger
  pub metrics : M
  pub gvk : GroupVersionKind

module _ {K M : Type 0} where
  -- The worker, its channel, and the number of the next channel.
  unfoldable pub new_creator : K → Option Logger → Option M → ℕ → Result (Creator K M × ℕ × ℕ)
  new_creator client none metrics next = err err_no_logger
  new_creator client (some logger) none next = err err_no_metrics
  new_creator client (some logger) (some metrics) next = ok (
    record {
      client = client;
      req_chan = next;
      logger = logger;
      metrics = metrics;
      gvk = secret_gvk;
    },
    next,
    next + 1,
  )

  unfoldable pub new_deleter : K → Option Logger → Option M → ℕ → Result (Deleter K M × ℕ × ℕ)
  new_deleter client none metrics next = err err_no_logger
  new_deleter client (some logger) none next = err err_no_metrics
  new_deleter client (some logger) (some metrics) next = ok (
    record {
      client = client;
      req_chan = next;
      logger = logger;
      metrics = metrics;
      gvk = secret_gvk;
    },
    next,
    next + 1,
  )
