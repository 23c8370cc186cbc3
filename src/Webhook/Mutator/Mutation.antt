-- ===== src/Webhook/Mutator/Mutation.antt =====
-- `Mutate`: on every way it ends, it has only added to the object, and it patches only pods.
use cain.Prelude.{
  ℕ, ◌≡◌, refl, sym, ap, subst, inl, inr, Bool-cases, Bool, true, false, Option, none, some, [],
  arith,
}
use cain.Go.Text.{GoString, text, str_eq}
use cain.Go.Errors.{Error, Result, errorf, ok, err}
use cain.Go.Exec.{Exec, returns, panics, diverges}
use cain.Kube.Pods.{Pod, Object, a_pod, other, object_meta}
use cain.Kube.Client.{Client}
use cain.Metadata.{is_injection_enabled}
use cain.Webhook.Review.{AdmissionReview}
use cain.Webhook.Mutator.State.{Mutator}
use cain.Webhook.Mutator.Handler.{MutatorResult, warning, no_change, inject_ca, mutate}
use cain.Webhook.Mutator.Extends.{PodExtends, PodExtends-refl}
use cain.Webhook.Mutator.Injection.{Injected-extends, inject-Outcome}

abbrev pub ObjectExtends : Object → Object → Type 0
ObjectExtends (a_pod p) (a_pod q) = PodExtends p q
ObjectExtends (a_pod p) (other m) = ⊥
ObjectExtends (other m) (a_pod q) = ⊥
ObjectExtends (other m) (other n) = n ≡ m

ObjectExtends-refl : (obj : Object) → ObjectExtends obj obj
ObjectExtends-refl (a_pod p) = PodExtends-refl p
ObjectExtends-refl (other m) = refl

-- A result with a mutated object is the object as the call leaves it, a pod.
abbrev pub Patches : Object → Result MutatorResult → Type 0
Patches obj (ok r) = (q : Pod) → r.mutated_object ≡ some q → obj ≡ a_pod q
Patches obj (err e) = Unit

module _ {S : Type 0} (client : Client S) (fuel : ℕ) (mut : Mutator) where
  mutate_pod :
      (pod : Pod) (namespace : GoString) (q : Pod) (r : MutatorResult) (s t : S)
      → inject_ca client fuel mut pod namespace s ≡ returns ((q, r), t)
      → PodExtends pod q × Patches (a_pod q) (ok r)
  mutate_pod pod namespace q r s t h =
      elim (inject-Outcome client fuel mut namespace pod q r s t _ _ refl refl h) [
        | inl (result, i) ↦
            (Injected-extends client fuel mut namespace pod s t q i, λ q' e. cc (result, e))
        | inr (result, extends) ↦ (extends, λ q' e. absurd (cc (result, e)))
      ]

  unchanged :
      (obj obj' : Object) (r : MutatorResult) (res : Result MutatorResult)
      → obj' ≡ obj
      → res ≡ ok r
      → r.mutated_object ≡ none
      → ObjectExtends obj obj' × Patches obj' res
  unchanged obj obj' r res same result no_patch = (
    subst (ObjectExtends obj) (sym same) (ObjectExtends-refl obj),
    subst (Patches obj') (sym result) (λ q e. absurd (cc (no_patch, e))),
  )

  enabled_extends :
      (rev : AdmissionReview) (obj obj' : Object) (res : Result MutatorResult) (s t : S)
      (x : Exec ((Pod × MutatorResult) × S)) (kube_system : Bool)
      → is_injection_enabled mut.extractor (object_meta obj) ≡ true
      → str_eq rev.namespace (text "kube-system") ≡ kube_system
      → ((pod : Pod) → obj ≡ a_pod pod → inject_ca client fuel mut pod rev.namespace s ≡ x)
      → mutate client fuel mut none rev obj s ≡ returns ((obj', res), t)
      → ObjectExtends obj obj' × Patches obj' res
  unfolding mutate
  enabled_extends rev obj obj' res s t x true on k i h =
      unchanged obj obj' no_change res (ground arith) (ground arith) refl
  enabled_extends rev (other m) obj' res s t x false on k i h =
      unchanged (other m) obj' (warning (text "Provided resource was not a Pod")) res (ground arith)
        (ground arith) refl
  enabled_extends rev (a_pod pod) obj' res s t (returns ((q, r), u)) false on k i h =
      let (extends, patches) = mutate_pod pod rev.namespace q r s u (i pod refl) in
      let e = i pod refl in
      let same : obj' ≡ a_pod q = ground arith in
      let result : res ≡ ok r = ground arith in (rw same extends, rw (same, result) patches)
  enabled_extends rev (a_pod pod) obj' res s t (panics why) false on k i h =
      let e = i pod refl in absurd (ground arith)
  enabled_extends rev (a_pod pod) obj' res s t diverges false on k i h =
      let e = i pod refl in absurd (ground arith)

  mutate_extends_at :
      (done : Option Error) (rev : AdmissionReview) (obj obj' : Object) (res : Result MutatorResult)
      (s t : S) (x : Exec ((Pod × MutatorResult) × S))
      → ((pod : Pod) → obj ≡ a_pod pod → inject_ca client fuel mut pod rev.namespace s ≡ x)
      → mutate client fuel mut done rev obj s ≡ returns ((obj', res), t)
      → ObjectExtends obj obj' × Patches obj' res
  mutate_extends_at (some e) rev obj obj' res s t x i h =
      let same : obj' ≡ obj = unfold mutate in ground arith in
      let result : res ≡ err (errorf (text "context has been cancelled, %w") [] e) =
        unfold mutate in ground arith in
      (rw same (ObjectExtends-refl obj), rw result tt)
  mutate_extends_at none rev obj obj' res s t x i h =
      elim (Bool-cases (is_injection_enabled mut.extractor (object_meta obj))) [
        | inl on ↦
            enabled_extends rev obj obj' res s t x (str_eq rev.namespace (text "kube-system")) on
              refl i h
        | inr off ↦
            unchanged obj obj' no_change res (unfold mutate in ground arith)
              (unfold mutate in ground arith) refl
      ]

  -- However a call of the mutating webhook returns, with a patch, a warning, an error or nothing to
  -- do, it has only added to the object: to a pod, volumes at the end, init containers in front, and
  -- to its containers mounts and variables at the end; names, images, resources, metadata and the
  -- order stay, and an object that is no pod is untouched. A patch is the pod as the call leaves it.
  pub mutate_extends :
      (done : Option Error) (rev : AdmissionReview) (obj obj' : Object) (res : Result MutatorResult)
      (s t : S)
      → mutate client fuel mut done rev obj s ≡ returns ((obj', res), t)
      → ObjectExtends obj obj' × Patches obj' res
  mutate_extends done rev (a_pod pod) obj' res s t h =
      mutate_extends_at done rev (a_pod pod) obj' res s t
        (inject_ca client fuel mut pod rev.namespace s)
        (λ p e. ap (λ (x : Pod). inject_ca client fuel mut x rev.namespace s) (cc e)) h
  mutate_extends done rev (other m) obj' res s t h =
      mutate_extends_at done rev (other m) obj' res s t diverges (λ p e. absurd (cc e)) h
