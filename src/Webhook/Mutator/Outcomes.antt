-- ===== src/Webhook/Mutator/Outcomes.antt =====
-- The ways in which the parts of the mutating webhook end, with what each one did.
use cain.Prelude.{ℕ, ◌≡◌, refl, ◌⊎◌, inl, inr, Option, none, some, List, [], arith}
use cain.Go.Text.{GoString, text}
use cain.Go.Errors.{Error, errorf, ok, err}
use cain.Go.Exec.{Exec, returns, panics, diverges}
use cain.Kube.Meta.{OwnerReference}
use cain.Kube.Pods.{Volume, Pod}
use cain.Kube.Client.{Client}
use cain.Webhook.Owner.{Owner, root_owner}
use cain.Webhook.Mutator.State.{Mutator}
use cain.Webhook.Mutator.Volumes.{get_ca_secret_volumes, with_ca_volumes, add_ca_secret_volumes}
use cain.Webhook.Mutator.Env.{with_jvm, add_jvm_secret_and_env}

module _ {S : Type 0} (client : Client S) (fuel : ℕ) (mut : Mutator) (pod : Pod)
    (namespace : GoString) (s t : S) where
  -- The search for the owner gave `owner`, at the state `t`.
  abbrev pub Owned : OwnerReference → Type 0
  Owned owner = root_owner client namespace fuel pod.meta none s ≡ returns (ok (some owner), t)

  pub record CaAdded (secret_volume ca_volume : GoString) (q : Pod) : Type 0 where
    pub owner : OwnerReference
    pub owned : Owned owner
    pub volumes : List Volume
    pub made : get_ca_secret_volumes mut pod owner.name secret_volume ca_volume ≡ returns volumes
    pub result : q ≡ with_ca_volumes mut pod volumes secret_volume ca_volume

  pub record JvmAdded (q : Pod) : Type 0 where
    pub owner : OwnerReference
    pub owned : Owned owner
    pub result : q ≡ with_jvm mut pod owner.name

  pub record Failed (failed : Option Error) (q : Pod) : Type 0 where
    pub failure : Error
    pub reported : failed ≡ some failure
    pub unchanged : q ≡ pod

  ca_added :
      (secret_volume ca_volume : GoString) (failed : Option Error) (q : Pod)
      (owner : OwnerReference) (u : S) (x : Exec (List Volume))
      → root_owner client namespace fuel pod.meta none s ≡ returns (ok (some owner), u)
      → get_ca_secret_volumes mut pod owner.name secret_volume ca_volume ≡ x
      → add_ca_secret_volumes client fuel mut pod namespace secret_volume ca_volume s
        ≡ returns ((q, failed), t)
      → (failed ≡ none) × CaAdded secret_volume ca_volume q ⊎ Failed failed q
  unfolding add_ca_secret_volumes
  ca_added secret_volume ca_volume failed q owner u (returns volumes) o v h = inl (
    ground arith,
    record {
      owner = owner;
      owned = ground arith;
      volumes = volumes;
      made = v;
      result = ground arith;
    },
  )
  ca_added secret_volume ca_volume failed q owner u (panics why) o v h = absurd (ground arith)
  ca_added secret_volume ca_volume failed q owner u diverges o v h = absurd (ground arith)

  pub add_ca_outcome :
      (secret_volume ca_volume : GoString) (failed : Option Error) (q : Pod) (x : Exec (Owner × S))
      → root_owner client namespace fuel pod.meta none s ≡ x
      → add_ca_secret_volumes client fuel mut pod namespace secret_volume ca_volume s
        ≡ returns ((q, failed), t)
      → (failed ≡ none) × CaAdded secret_volume ca_volume q ⊎ Failed failed q
  unfolding add_ca_secret_volumes
  add_ca_outcome secret_volume ca_volume failed q (returns (ok (some owner), u)) o h =
      ca_added secret_volume ca_volume failed q owner u
        (get_ca_secret_volumes mut pod owner.name secret_volume ca_volume) o refl h
  add_ca_outcome secret_volume ca_volume failed q (returns (ok none, u)) o h = absurd (ground arith)
  add_ca_outcome secret_volume ca_volume failed q (returns (err e, u)) o h = inr (record {
    failure = errorf (text "getting root object: %w") [] e;
    reported = ground arith;
    unchanged = ground arith;
  })
  add_ca_outcome secret_volume ca_volume failed q (panics why) o h = absurd (ground arith)
  add_ca_outcome secret_volume ca_volume failed q diverges o h = absurd (ground arith)

  pub add_jvm_outcome :
      (failed : Option Error) (q : Pod) (x : Exec (Owner × S))
      → root_owner client namespace fuel pod.meta none s ≡ x
      → add_jvm_secret_and_env client fuel mut pod namespace s ≡ returns ((q, failed), t)
      → (failed ≡ none) × JvmAdded q ⊎ Failed failed q
  unfolding add_jvm_secret_and_env
  add_jvm_outcome failed q (returns (ok (some owner), u)) o h =
      inl (ground arith, record { owner = owner; owned = ground arith; result = ground arith })
  add_jvm_outcome failed q (returns (ok none, u)) o h = absurd (ground arith)
  add_jvm_outcome failed q (returns (err e, u)) o h = inr (record {
    failure = errorf (text "getting root object name: %w") [] e;
    reported = ground arith;
    unchanged = ground arith;
  })
  add_jvm_outcome failed q (panics why) o h = absurd (ground arith)
  add_jvm_outcome failed q diverges o h = absurd (ground arith)
