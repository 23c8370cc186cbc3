-- ===== src/Webhook/Mutator/Idempotence.antt =====
-- A patched pod is not patched again.
use cain.Prelude.{
  ℕ, ◌≡◌, refl, ap, ◌∙◌, inl, inr, Bool-cases, true, Option, none, some, List, [], ◌∷◌, arith,
}
use cain.Go.Text.{text, str_eq, str_eq_refl}
use cain.Go.Errors.{Error, Result, errorf, ok, err}
use cain.Go.Exec.{returns}
use cain.Kube.Pods.{Container, Pod, Object, a_pod}
use cain.Kube.Client.{Client}
use cain.Metadata.{is_injection_enabled}
use cain.Webhook.Review.{AdmissionReview}
use cain.Webhook.Mutator.State.{Mutator, ca_init_container_name}
use cain.Webhook.Mutator.Handler.{
  MutatorResult, has_ca_init_container, inject_ca, mutate, warning, no_change,
}
use cain.Webhook.Mutator.Patched.{mutate-Patched}
use cain.Webhook.Mutator.Bundle.{init_of_Injected}

has_first :
    (c : Container) (cs : List Container)
    → c.name ≡ ca_init_container_name
    → has_ca_init_container (c ∷ cs) ≡ true
unfolding has_ca_init_container
has_first c cs e = rw (e, str_eq_refl)

-- A result without a mutated object, or an error.
abbrev pub PatchesNothing : Result MutatorResult → Type 0
PatchesNothing (ok r) = r.mutated_object ≡ none
PatchesNothing (err e) = Unit

module _ {R S : Type 0} (client : Client R) (again : Client S) (fuel fuel' : ℕ)
    (mut : Mutator) where
  keeps_off :
      (rev : AdmissionReview) (q : Pod) (u : S)
      → has_ca_init_container q.init_containers ≡ true
      → (r : MutatorResult) × (r.mutated_object ≡ none)
        × (mutate again fuel' mut none rev (a_pod q) u ≡ returns ((a_pod q, ok r), u))
  unfolding mutate inject_ca
  keeps_off rev q u there = elim (Bool-cases (is_injection_enabled mut.extractor q.meta)) [
    | inr off ↦ (no_change, refl, ground arith)
    | inl on ↦ elim (Bool-cases (str_eq rev.namespace (text "kube-system"))) [
      | inl kube ↦ (no_change, refl, ground arith)
      | inr outside ↦ (warning (text "Pod already mutated for CA injection"), refl, ground arith)
    ]
  ]

  later_call :
      (done : Option Error) (rev : AdmissionReview) (q : Pod) (u : S)
      → has_ca_init_container q.init_containers ≡ true
      → (res : Result MutatorResult) × PatchesNothing res
        × (mutate again fuel' mut done rev (a_pod q) u ≡ returns ((a_pod q, res), u))
  later_call none rev q u there =
      let (r, no_patch, h) = keeps_off rev q u there in (ok r, no_patch, h)
  later_call (some e) rev q u there =
      (err (errorf (text "context has been cancelled, %w") [] e), tt, unfold mutate in refl)

  -- If a call patches an object to `q`, then any later call on `q`, for any review, whether its context is
  -- done or not and whatever became of the API server, returns without a patch, and leaves `q` as it is.
  pub mutate_idempotent :
      (done done' : Option Error) (rev rev' : AdmissionReview) (obj obj' : Object)
      (r : MutatorResult) (s t : R) (q : Pod) (u : S)
      → mutate client fuel mut done rev obj s ≡ returns ((obj', ok r), t)
      → r.mutated_object ≡ some q
      → (res : Result MutatorResult) × PatchesNothing res
        × (mutate again fuel' mut done' rev' (a_pod q) u ≡ returns ((a_pod q, res), u))
  mutate_idempotent done done' rev rev' obj obj' r s t q u h patch =
      let p = mutate-Patched client fuel mut done rev obj obj' r s t q h patch in
      later_call done' rev' q u (
        ap has_ca_init_container
          (init_of_Injected client fuel mut rev.namespace p.pod s t q p.injected)
        ∙ has_first _ _ refl)
