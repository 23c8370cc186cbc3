-- ===== src/Run/Shutdown.antt =====
-- Who waits for whom at the end of the process.
use cain.Prelude.{◌≡◌, refl, true, none, arith}
use cain.Run.{
  secret_creator, secret_deletor, cert_creator, webhook_shutdown, running, ended, returned, Process,
  started, creates_secrets, deletes_secrets, creates_certs, Step, worker_ends, webhook_shut_down,
  review_arrives, review_ends, review_closes, Steps, stays, step, HasReturned,
}

-- The three workers run.
abbrev pub AreWorking : Process → Type 0
AreWorking p =
    (p.tasks secret_creator ≡ running)
    × (p.tasks secret_deletor ≡ running)
    × (p.tasks cert_creator ≡ running)

Step-AreWorking :
    (p q : Process)
    → (p.channels_open ≡ true → AreWorking p)
    → Step p q
    → q.channels_open ≡ true
    → AreWorking q
Step-AreWorking p q w (worker_ends st k run closed) o = absurd (cc (closed, o))
Step-AreWorking p q w (review_closes n e) o = absurd (cc o)
Step-AreWorking p q w s o = w o

Steps-AreWorking :
    (p q : Process)
    → (p.channels_open ≡ true → AreWorking p)
    → Steps p q
    → q.channels_open ≡ true
    → AreWorking q
Steps-AreWorking p q w (stays _) o = w o
Steps-AreWorking p q w (step {q = r} s more) o =
    Steps-AreWorking r q (Step-AreWorking p r w s) more o

-- As long as no review has closed the channels, the three workers run, whatever signals came and whatever
-- tasks have failed; so the pool still waits.
pub workers_outlive :
    (p : Process) → Steps started p → p.channels_open ≡ true → AreWorking p × ¬ (HasReturned p)
workers_outlive p run o =
    let w = Steps-AreWorking started p (λ e. (refl, refl, refl)) run o in
    (w, λ all. all secret_creator w.0)

-- `Shutdown` of the webhook server has returned nil.
abbrev pub IsShutDown : Process → Type 0
IsShutDown p = p.tasks webhook_shutdown ≡ ended (returned none)

-- Then no review is in flight.
abbrev IsDrained : Process → Type 0
IsDrained p = IsShutDown p → p.in_flight ≡ 0

Step-IsDrained : (p q : Process) → IsDrained p → Step p q → IsDrained q
Step-IsDrained p q d (worker_ends o creates_secrets run closed) shut = d shut
Step-IsDrained p q d (worker_ends o deletes_secrets run closed) shut = d shut
Step-IsDrained p q d (worker_ends o creates_certs run closed) shut = d shut
Step-IsDrained p q d (webhook_shut_down result run called idle) shut = idle (cc shut)
Step-IsDrained p q d (review_arrives accepts) shut = absurd (accepts shut)
Step-IsDrained p q d (review_ends n e) shut = let idle = d shut in absurd (omega arith)
Step-IsDrained p q d s shut = d shut

Steps-IsDrained : (p q : Process) → IsDrained p → Steps p q → IsDrained q
Steps-IsDrained p q d (stays _) = d
Steps-IsDrained p q d (step {q = r} s more) = Steps-IsDrained r q (Step-IsDrained p r d s) more

-- The channels are open, and no review is there or can come that closes them.
abbrev IsDeaf : Process → Type 0
IsDeaf p = (p.channels_open ≡ true) × IsShutDown p × (p.in_flight ≡ 0)

Step-IsDeaf : (p q : Process) → IsDeaf p → Step p q → IsDeaf q
Step-IsDeaf p q d (worker_ends o k run closed) = absurd (let opened = d.0 in cc (closed, opened))
Step-IsDeaf p q d (webhook_shut_down result run called idle) =
    absurd (let shut = d.1 in cc (run, shut))
Step-IsDeaf p q d (review_arrives accepts) = absurd (accepts d.1)
Step-IsDeaf p q d (review_ends n e) = absurd (let idle = d.2 in omega arith)
Step-IsDeaf p q d (review_closes n e) = absurd (let idle = d.2 in omega arith)
Step-IsDeaf p q d s = d

Steps-IsDeaf : (p q : Process) → IsDeaf p → Steps p q → IsDeaf q
Steps-IsDeaf p q d (stays _) = d
Steps-IsDeaf p q d (step {q = r} s more) = Steps-IsDeaf r q (Step-IsDeaf p r d s) more

pub Steps-append : {p q r : Process} → Steps p q → Steps q r → Steps p r
Steps-append (stays _) more = more
Steps-append (step s rest) more = step s (Steps-append rest more)

-- If `Shutdown` of the webhook server has returned nil while the channels are open, then the pool never
-- returns: after any further steps, the three workers still run.
pub run_never_returns :
    (p q : Process)
    → Steps started p
    → p.channels_open ≡ true
    → p.tasks webhook_shutdown ≡ ended (returned none)
    → Steps p q
    → AreWorking q × ¬ (HasReturned q)
run_never_returns p q run o shut more =
    let idle = Steps-IsDrained started p (λ e. refl) run shut in
    workers_outlive q (Steps-append run more) (Steps-IsDeaf p q (o, shut, idle) more).0
