-- ===== src/Webhook/Owner.antt =====
-- `rootOwner` of webhook/utils.go. The recursion takes fuel: owner references can form a cycle.
pub mod Ancestors
pub mod Soundness
pub mod Termination
pub mod Stability
use cain.Prelude.{ℕ, zero, suc, Option, none, some, List, [], ◌∷◌}
use cain.Go.Text.{GoString, text}
use cain.Go.Errors.{Error, Result, errors_new, errorf, ok, err}
use cain.Go.Exec.{Go, returns, diverges, pure, ◌>>=◌}
use cain.Go.Maps.{Entries, lookup}
use cain.Kube.Meta.{OwnerReference, ObjectMeta}
use cain.Kube.Pods.{Object, object_meta}
use cain.Kube.Client.{
  Kind, deployment, stateful_set, replica_set, daemon_set, cron_job, job, Client,
}

abbrev pub err_no_root_owner_found : Error
err_no_root_owner_found = errors_new (text "no root owner found")

-- The keys of `kindFuncs`, with the getter that each one stands for.
abbrev pub kind_funcs : Entries Kind
kind_funcs =
    (text "Deployment", deployment)
    ∷ (text "StatefulSet", stateful_set)
    ∷ (text "ReplicaSet", replica_set)
    ∷ (text "DaemonSet", daemon_set)
    ∷ (text "CronJob", cron_job)
    ∷ (text "Job", job)
    ∷ []

unfoldable pub kind_func : OwnerReference → Option Kind
unfolding lookup
kind_func ref = lookup ref.kind kind_funcs

-- The result without owner references: the reference that led here, or one that has only a name.
abbrev pub top_reference : ObjectMeta → Option OwnerReference → OwnerReference
top_reference obj none = record { kind = []; name = obj.name; uid = [] }
top_reference obj (some ref) = ref

abbrev pub keep_found : Option OwnerReference → Option OwnerReference → Option OwnerReference
keep_found found none = found
keep_found found (some root) = some root

-- A pointer is an `Option`; `none` is nil.
abbrev pub Owner : Type 0
Owner = Result (Option OwnerReference)

module _ {S : Type 0} (client : Client S) (namespace : GoString) where
  -- Reads of the API server return.
  get_owner : Kind → GoString → Go S (Result Object)
  get_owner kind name s = returns (client.get kind namespace name s)

  -- The loop over the owner references, `root_owner_of` being the recursive call.
  pub follow_owners :
      (ObjectMeta → OwnerReference → Go S Owner)
      → List OwnerReference
      → Option OwnerReference
      → Go S Owner
  unfolding get_owner
  follow_owners root_owner_of [] none = pure (err err_no_root_owner_found)
  follow_owners root_owner_of [] (some root) = pure (ok (some root))
  follow_owners root_owner_of (ref ∷ refs) found = elim (kind_func ref) [
    | none ↦ pure (ok (some ref))
    | some kind ↦ do
      read ← get_owner kind ref.name
      elim read [
        | err e ↦ pure (err (errorf (text "getting %s %q: %w") (ref.kind ∷ ref.name ∷ []) e))
        | ok obj ↦ do
          owner ← root_owner_of (object_meta obj) ref
          elim owner [
            | err e ↦
                pure (err (errorf (text "root owner for %s %q: %w") (ref.kind ∷ ref.name ∷ []) e))
            | ok root ↦ follow_owners root_owner_of refs (keep_found found root)
          ]
      ]
  ]

  unfoldable pub root_owner : ℕ → ObjectMeta → Option OwnerReference → Go S Owner
  unfolding follow_owners
  root_owner zero obj owner_ref = λ s. diverges
  root_owner (suc fuel) obj owner_ref = elim obj.owner_references [
    | [] ↦ pure (ok (some (top_reference obj owner_ref)))
    | ref ∷ refs ↦ follow_owners (λ owner r. root_owner fuel owner (some r)) (ref ∷ refs) none
  ]
