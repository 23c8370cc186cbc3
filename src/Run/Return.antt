-- ===== src/Run/Return.antt =====
-- The steps by which the tasks of the process can end, once the channels are closed.
use cain.Prelude.{
  ℕ, zero, suc, ◌≡◌, ◌≢◌, refl, ◌⊎◌, inl, inr, true, false, none, List, [], ◌∷◌, All,
}
use cain.Run.{
  Task, tls_watcher, secret_creator, secret_deletor, cert_creator, metrics_server, metrics_shutdown,
  webhook_server, webhook_shutdown, Outcome, Status, running, ended, returned, Process, started,
  update, finish, creates_secrets, deletes_secrets, creates_certs, Step, signalled, watcher_stops,
  worker_ends, metrics_closes, webhook_closes, metrics_shuts, metrics_shut_down, webhook_shuts,
  webhook_shut_down, review_ends, Steps, stays, step, HasReturned,
}
use cain.Run.Shutdown.{Steps-append}

-- The tasks that call `Shutdown` return only after the call.
abbrev AreCalled : Process → Type 0
AreCalled p =
    ((p.tasks metrics_shutdown ≡ running) ⊎ (p.metrics_shut ≡ true))
    × ((p.tasks webhook_shutdown ≡ running) ⊎ (p.webhook_shut ≡ true))

Step-AreCalled : (p q : Process) → AreCalled p → Step p q → AreCalled q
Step-AreCalled p q c (worker_ends o creates_secrets run closed) = c
Step-AreCalled p q c (worker_ends o deletes_secrets run closed) = c
Step-AreCalled p q c (worker_ends o creates_certs run closed) = c
Step-AreCalled p q c (metrics_shuts run done) = (inr refl, c.1)
Step-AreCalled p q c (webhook_shuts run done) = (c.0, inr refl)
Step-AreCalled p q c (metrics_shut_down result run called) = (inr called, c.1)
Step-AreCalled p q c (webhook_shut_down result run called idle) = (c.0, inr called)
Step-AreCalled p q c s = c

Steps-AreCalled : (p q : Process) → AreCalled p → Steps p q → AreCalled q
Steps-AreCalled p q c (stays _) = c
Steps-AreCalled p q c (step {q = r} s more) = Steps-AreCalled r q (Step-AreCalled p r c s) more

-- The context is done, `Shutdown` of both servers was called, and the channels are closed.
abbrev AreShut : Process → Type 0
AreShut p =
    (p.cancelled ≡ true)
    × (p.metrics_shut ≡ true)
    × (p.webhook_shut ≡ true)
    × (p.channels_open ≡ false)

-- No review is left either, so that every task that runs can end.
abbrev IsReady : Process → Type 0
IsReady p = AreShut p × (p.in_flight ≡ 0)

-- The step that ends a task which runs.
ending :
    (task : Task) (p : Process)
    → IsReady p
    → p.tasks task ≡ running
    → Step p (finish task (returned none) p)
ending tls_watcher p r run = watcher_stops (returned none) run r.0.0
ending secret_creator p r run = worker_ends (returned none) creates_secrets run r.0.3
ending secret_deletor p r run = worker_ends (returned none) deletes_secrets run r.0.3
ending cert_creator p r run = worker_ends (returned none) creates_certs run r.0.3
ending metrics_server p r run = metrics_closes run r.0.1
ending metrics_shutdown p r run = metrics_shut_down none run r.0.1
ending webhook_server p r run = webhook_closes run r.0.2
ending webhook_shutdown p r run = webhook_shut_down none run r.0.2 (λ e. r.1)

abbrev HasEnded : Process → Task → Type 0
HasEnded p task = p.tasks task ≢ running

update-same :
    (task : Task) (o : Outcome) (f : Task → Status) → update task (ended o) f task ≡ ended o
update-same tls_watcher o f = refl
update-same secret_creator o f = refl
update-same secret_deletor o f = refl
update-same cert_creator o f = refl
update-same metrics_server o f = refl
update-same metrics_shutdown o f = refl
update-same webhook_server o f = refl
update-same webhook_shutdown o f = refl

-- A task that has ended has ended when another one does.
update-HasEnded :
    (task other : Task) (o : Outcome) (f : Task → Status)
    → f other ≢ running
    → update task (ended o) f other ≢ running
update-HasEnded tls_watcher tls_watcher o f h = λ e. cc e
update-HasEnded secret_creator secret_creator o f h = λ e. cc e
update-HasEnded secret_deletor secret_deletor o f h = λ e. cc e
update-HasEnded cert_creator cert_creator o f h = λ e. cc e
update-HasEnded metrics_server metrics_server o f h = λ e. cc e
update-HasEnded metrics_shutdown metrics_shutdown o f h = λ e. cc e
update-HasEnded webhook_server webhook_server o f h = λ e. cc e
update-HasEnded webhook_shutdown webhook_shutdown o f h = λ e. cc e
update-HasEnded task other o f h = h

Status-cases : (st : Status) → (st ≡ running) ⊎ (st ≢ running)
Status-cases running = inl refl
Status-cases (ended o) = inr (λ e. cc e)

-- After some steps the tasks of the list have ended, and those that had.
abbrev Ends : Process → List Task → Type 0
Ends p tasks =
    (q : Process) × Steps p q
    × IsReady q
    × All (HasEnded q) tasks
    × ((other : Task) → HasEnded p other → HasEnded q other)

end_task : (task : Task) (p : Process) → IsReady p → Ends p (task ∷ [])
end_task task p r = elim (Status-cases (p.tasks task)) [
  | inl run ↦ (
    finish task (returned none) p,
    step (ending task p r run) (stays _),
    r,
    ((λ e. let hit = update-same task (returned none) p.tasks in cc (hit, e)), tt),
    λ other h. update-HasEnded task other (returned none) p.tasks h,
  )
  | inr over ↦ (p, stays p, r, (over, tt), λ other h. h)
]

end_tasks : (tasks : List Task) (p : Process) → IsReady p → Ends p tasks
end_tasks [] p r = (p, stays p, r, tt, λ other h. h)
end_tasks (task ∷ tasks) p r =
    let (q, first_steps, ready, over, keeps) = end_task task p r in
    let (z, more, still, all_over, keeps_all) = end_tasks tasks q ready in
    (
      z,
      Steps-append first_steps more,
      still,
      (keeps_all task over.0, all_over),
      λ other h. keeps_all other (keeps other h),
    )

-- The reviews in flight end.
drain : (n : ℕ) (p : Process) → p.in_flight ≡ n → AreShut p → (q : Process) × Steps p q × IsReady q
drain zero p idle shut = (p, stays p, (shut, idle))
drain (suc n) p busy h =
    let (q, more, ready) = drain n (record p { in_flight = n }) refl h in
    (q, step (review_ends n busy) more, ready)

-- A signal, and the calls of `Shutdown` that it leads to.
shut_servers :
    (p : Process) → AreCalled p → p.channels_open ≡ false → (q : Process) × Steps p q × AreShut q
shut_servers p (inl m, inl w) closed = (
  record p { cancelled = true; metrics_shut = true; webhook_shut = true },
  step signalled (step (metrics_shuts m refl) (step (webhook_shuts w refl) (stays _))),
  (refl, refl, refl, closed),
)
shut_servers p (inl m, inr w) closed = (
  record p { cancelled = true; metrics_shut = true },
  step signalled (step (metrics_shuts m refl) (stays _)),
  (refl, refl, w, closed),
)
shut_servers p (inr m, inl w) closed = (
  record p { cancelled = true; webhook_shut = true },
  step signalled (step (webhook_shuts w refl) (stays _)),
  (refl, m, refl, closed),
)
shut_servers p (inr m, inr w) closed =
    (record p { cancelled = true }, step signalled (stays _), (refl, m, w, closed))

abbrev all_tasks : List Task
all_tasks =
    tls_watcher ∷ secret_creator ∷ secret_deletor ∷ cert_creator ∷ metrics_server ∷ metrics_shutdown
    ∷ webhook_server ∷ webhook_shutdown ∷ []

HasReturned-All : (q : Process) → All (HasEnded q) all_tasks → HasReturned q
HasReturned-All q all tls_watcher = all.0
HasReturned-All q all secret_creator = all.1.0
HasReturned-All q all secret_deletor = all.1.1.0
HasReturned-All q all cert_creator = all.1.1.1.0
HasReturned-All q all metrics_server = all.1.1.1.1.0
HasReturned-All q all metrics_shutdown = all.1.1.1.1.1.0
HasReturned-All q all webhook_server = all.1.1.1.1.1.1.0
HasReturned-All q all webhook_shutdown = all.1.1.1.1.1.1.1.0

-- Whatever has happened so far, once a review has closed the channels, the pool can still return: there are
-- further steps after which no task runs.
pub run_can_return :
    (p : Process)
    → Steps started p
    → p.channels_open ≡ false
    → (q : Process) × Steps p q × HasReturned q
run_can_return p run closed =
    let called = Steps-AreCalled started p (inl refl, inl refl) run in
    let (a, shutting, shut) = shut_servers p called closed in
    let (b, draining, ready) = drain a.in_flight a refl shut in
    let (q, last, still, over, keeps) = end_tasks all_tasks b ready in
    (q, Steps-append shutting (Steps-append draining last), HasReturned-All q over)
