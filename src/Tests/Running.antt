-- ===== src/Tests/Running.antt =====
-- Runs of the process: a signal alone, and a signal after a review has closed the channels.
use cain.Prelude.{refl, true, false, none}
use cain.Run.{
  webhook_server, webhook_shutdown, returned, Process, started, finish, signalled, webhook_shuts,
  webhook_closes, webhook_shut_down, review_arrives, review_closes, Steps, stays, step, HasReturned,
}
use cain.Run.Shutdown.{AreWorking, workers_outlive, run_never_returns}
use cain.Run.Return.{run_can_return}

-- After a signal the webhook server is shut down, and `Shutdown` returns.
abbrev signalled_process : Process
signalled_process = finish webhook_shutdown (returned none) (
    finish webhook_server (returned none)
      (record started { cancelled = true; webhook_shut = true }))

signal_shuts : Steps started signalled_process
signal_shuts = step signalled (
    step (webhook_shuts refl refl) (
      step (webhook_closes refl refl)
        (step (webhook_shut_down none refl refl (λ e. refl)) (stays _))))

workers_outlive_example : AreWorking signalled_process × ¬ (HasReturned signalled_process)
workers_outlive_example = workers_outlive signalled_process signal_shuts refl

run_never_returns_example : AreWorking signalled_process × ¬ (HasReturned signalled_process)
run_never_returns_example =
    run_never_returns signalled_process signalled_process signal_shuts refl refl
      (step signalled (stays _))

-- A review whose context is done, on a connection that outlives the server, has closed the channels.
abbrev closed_process : Process
closed_process =
    record (finish webhook_server (returned none)
      (record started { cancelled = true; webhook_shut = true })) {
        in_flight = 1;
        channels_open = false;
      }

closed_by_review : Steps started closed_process
closed_by_review = step signalled (
    step (webhook_shuts refl refl) (
      step (webhook_closes refl refl)
        (step (review_arrives (λ e. cc e)) (step (review_closes 0 refl) (stays _)))))

run_can_return_example : (q : Process) × Steps closed_process q × HasReturned q
run_can_return_example = run_can_return closed_process closed_by_review refl
