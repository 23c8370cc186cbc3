-- ===== src/Run.antt =====
-- `run` of cain.go, from the pool of goroutines on: its tasks, and the steps that the process takes.
pub mod Shutdown
pub mod Return
use cain.Prelude.{ℕ, suc, ◌≡◌, ◌≢◌, Bool, true, false, Option, none, some}
use cain.Go.Errors.{Error}

-- The functions that the pool runs, in their order.
pub data Task : Type 0 where
  tls_watcher secret_creator secret_deletor cert_creator metrics_server metrics_shutdown
        webhook_server webhook_shutdown :
      Task

-- A task ends by a result, an error or nil, or by a panic, which the pool keeps until `Wait`.
pub data Outcome : Type 0 where
  returned : Option Error → Outcome
  panicked : Outcome

pub data Status : Type 0 where
  running : Status
  ended : Outcome → Status

-- `cancelled`: the pool's context is done. `in_flight`: the reviews that the webhook server handles.
-- `channels_open`: the channels from the webhook to the workers, which a review closes all at once.
pub record Process : Type 0 where
  pub cancelled : Bool
  pub channels_open : Bool
  pub in_flight : ℕ
  pub metrics_shut : Bool
  pub webhook_shut : Bool
  pub tasks : Task → Status

abbrev pub started : Process
started = record {
  cancelled = false;
  channels_open = true;
  in_flight = 0;
  metrics_shut = false;
  webhook_shut = false;
  tasks = λ task. running;
}

-- The pool cancels its context on an error or a panic.
abbrev pub cancels : Outcome → Bool → Bool
cancels panicked cancelled = true
cancels (returned none) cancelled = cancelled
cancels (returned (some e)) cancelled = true

abbrev pub update : Task → Status → (Task → Status) → Task → Status
update tls_watcher st f tls_watcher = st
update secret_creator st f secret_creator = st
update secret_deletor st f secret_deletor = st
update cert_creator st f cert_creator = st
update metrics_server st f metrics_server = st
update metrics_shutdown st f metrics_shutdown = st
update webhook_server st f webhook_server = st
update webhook_shutdown st f webhook_shutdown = st
update task st f other = f other

abbrev pub finish : Task → Outcome → Process → Process
finish task outcome p = record p {
  cancelled = cancels outcome p.cancelled;
  tasks = update task (ended outcome) p.tasks;
}

-- The tasks that range over a channel.
pub data IsWorker : Task → Type 0 where
  creates_secrets : IsWorker secret_creator
  deletes_secrets : IsWorker secret_deletor
  creates_certs : IsWorker cert_creator

-- A step of the process. A task ends once. The workers do not look at the context: they end when their
-- channel is closed.
pub data Step (p : Process) : Process → Type 0 where
  -- SIGINT or SIGTERM
  signalled : Step p (record p { cancelled = true })
  -- the watcher of the TLS files ends with its context, or by an error
  watcher_stops :
      (outcome : Outcome)
      → p.tasks tls_watcher ≡ running
      → p.cancelled ≡ true
      → Step p (finish tls_watcher outcome p)
  watcher_fails :
      (e : Error)
      → p.tasks tls_watcher ≡ running
      → Step p (finish tls_watcher (returned (some e)) p)
  -- a worker finds its channel closed, or panics as it sends on a closed one
  worker_ends :
      {task : Task} (outcome : Outcome)
      → IsWorker task
      → p.tasks task ≡ running
      → p.channels_open ≡ false
      → Step p (finish task outcome p)
  -- `ListenAndServe` fails, or returns `ErrServerClosed` once `Shutdown` was called
  metrics_fails :
      (e : Error)
      → p.tasks metrics_server ≡ running
      → Step p (finish metrics_server (returned (some e)) p)
  metrics_closes :
      p.tasks metrics_server ≡ running
      → p.metrics_shut ≡ true
      → Step p (finish metrics_server (returned none) p)
  webhook_fails :
      (e : Error)
      → p.tasks webhook_server ≡ running
      → Step p (finish webhook_server (returned (some e)) p)
  webhook_closes :
      p.tasks webhook_server ≡ running
      → p.webhook_shut ≡ true
      → Step p (finish webhook_server (returned none) p)
  -- the tasks that wait for the context call `Shutdown`, and return its result later: an error where it
  -- takes too long, and nil when no connection is left
  metrics_shuts :
      p.tasks metrics_shutdown ≡ running
      → p.cancelled ≡ true
      → Step p (record p { metrics_shut = true })
  metrics_shut_down :
      (result : Option Error)
      → p.tasks metrics_shutdown ≡ running
      → p.metrics_shut ≡ true
      → Step p (finish metrics_shutdown (returned result) p)
  webhook_shuts :
      p.tasks webhook_shutdown ≡ running
      → p.cancelled ≡ true
      → Step p (record p { webhook_shut = true })
  webhook_shut_down :
      (result : Option Error)
      → p.tasks webhook_shutdown ≡ running
      → p.webhook_shut ≡ true
      → (result ≡ none → p.in_flight ≡ 0)
      → Step p (finish webhook_shutdown (returned result) p)
  -- accepted connections bring reviews, also when the server has returned, until `Shutdown` has
  -- returned nil; a review whose context is done closes the channels
  review_arrives :
      p.tasks webhook_shutdown ≢ ended (returned none)
      → Step p (record p { in_flight = suc p.in_flight })
  review_ends : (n : ℕ) → p.in_flight ≡ suc n → Step p (record p { in_flight = n })
  review_closes : (n : ℕ) → p.in_flight ≡ suc n → Step p (record p { channels_open = false })

-- Any number of steps.
pub data Steps : Process → Process → Type 0 where
  stays : (p : Process) → Steps p p
  step : {p q r : Process} → Step p q → Steps q r → Steps p r

-- `ctxPool.Wait` has returned: no task runs any more.
abbrev pub HasReturned : Process → Type 0
HasReturned p = (task : Task) → ¬ (p.tasks task ≡ running)
