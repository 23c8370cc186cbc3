-- ===== src/Kube/Client.antt =====
-- The client of the API server, a parameter: reading an object can change the state `S` of the
-- world, so that two reads of one object may differ.
use cain.Prelude.{◌≡◌}
use cain.Go.Text.{GoString}
use cain.Go.Errors.{Result}
use cain.Kube.Pods.{Object}

-- The kinds for which the program has a getter.
pub data Kind : Type 0 where
  deployment stateful_set replica_set daemon_set cron_job job : Kind

pub record Client (S : Type 0) : Type 0 where
  -- `Get(ctx, name, ...)` of a kind in a namespace
  pub get : Kind → GoString → GoString → S → Result Object × S

-- Every read answers `answer`, whatever was read before: nobody changes the objects meanwhile.
abbrev pub IsSettled :
    {S : Type 0} → Client S → (Kind → GoString → GoString → Result Object) → Type 0
IsSettled {S} c answer =
    (k : Kind) (ns name : GoString) (s : S) → c.get k ns name s ≡ (answer k ns name, s)
