-- ===== src/Webhook/Mutator/Patched.antt =====
-- `Mutate` with a patch: what it takes, and the injection behind it.
use cain.Prelude.{
  ℕ, ◌≡◌, ◌≢◌, refl, ap, subst, inl, inr, Bool, true, false, Option, none, some, arith,
}
use cain.Go.Text.{GoString, text, str_eq, str_eq_iff}
use cain.Go.Maps.{index}
use cain.Kube.Meta.{ObjectMeta}
use cain.Go.Errors.{Error, ok}
use cain.Go.Exec.{Exec, returns, panics, diverges}
use cain.Kube.Pods.{Pod, Object, a_pod, other, object_meta}
use cain.Kube.Client.{Client}
use cain.Metadata.{is_injection_enabled}
use cain.Webhook.Review.{AdmissionReview}
use cain.Webhook.Mutator.State.{Mutator}
use cain.Webhook.Mutator.Handler.{MutatorResult, inject_ca, mutate}
use cain.Webhook.Mutator.Injection.{Injected, inject-Outcome}

labelled_value :
    (mut : Mutator) (meta : ObjectMeta) (label : Option GoString)
    → index meta.labels mut.extractor.enabled_label ≡ label
    → is_injection_enabled mut.extractor meta ≡ true
    → label ≡ some (text "true")
unfolding is_injection_enabled
labelled_value mut meta none e on = absurd (ground arith)
labelled_value mut meta (some value) e on =
    ap (λ (s : GoString). some s) (ground (arith, str_eq_iff value (text "true")))

enabled_labelled :
    (mut : Mutator) (meta : ObjectMeta)
    → is_injection_enabled mut.extractor meta ≡ true
    → index meta.labels mut.extractor.enabled_label ≡ some (text "true")
enabled_labelled mut meta on = labelled_value mut meta _ refl on

module _ {S : Type 0} (client : Client S) (fuel : ℕ) (mut : Mutator) where
  -- A call that patches `obj` to `q`: it is a pod with the label set to `true`, outside kube-system, and the
  -- context is not done.
  pub record Patched (done : Option Error) (rev : AdmissionReview) (obj : Object) (s t : S)
      (q : Pod) : Type 0 where
    pub pod : Pod
    pub is_pod : obj ≡ a_pod pod
    pub running : done ≡ none
    pub enabled : is_injection_enabled mut.extractor pod.meta ≡ true
    pub labelled : index pod.meta.labels mut.extractor.enabled_label ≡ some (text "true")
    pub outside : rev.namespace ≢ text "kube-system"
    pub injected : Injected client fuel mut rev.namespace pod s t q

  Patched-pod :
      (rev : AdmissionReview) (pod : Pod) (obj' : Object) (r : MutatorResult) (s t : S) (q : Pod)
      (x : Exec ((Pod × MutatorResult) × S))
      → is_injection_enabled mut.extractor pod.meta ≡ true
      → str_eq rev.namespace (text "kube-system") ≡ false
      → inject_ca client fuel mut pod rev.namespace s ≡ x
      → mutate client fuel mut none rev (a_pod pod) s ≡ returns ((obj', ok r), t)
      → r.mutated_object ≡ some q
      → Patched none rev (a_pod pod) s t q
  unfolding mutate
  Patched-pod rev pod obj' r s t q (returns ((p, r'), u)) on outside i h patch =
      elim (inject-Outcome client fuel mut rev.namespace pod p r' s u _ _ refl refl i) [
        | inl (result, injected) ↦
            (let same_result : r ≡ r' = ground arith in
              let same_state : u ≡ t = ground arith in
              let same_pod : p ≡ q = cc (result, same_result, patch) in
              record {
                pod = pod;
                is_pod = refl;
                running = refl;
                enabled = on;
                labelled = enabled_labelled mut pod.meta on;
                outside =
                    λ e. absurd (ground (arith, str_eq_iff rev.namespace (text "kube-system")));
                injected = subst (Injected client fuel mut rev.namespace pod s t) same_pod (
                    subst (λ w. Injected client fuel mut rev.namespace pod s w p) same_state
                      injected);
              })
        | inr (none_there, extends) ↦
            absurd (let same_result : r ≡ r' = ground arith in cc (none_there, same_result, patch))
      ]
  Patched-pod rev pod obj' r s t q (panics why) on outside i h patch = absurd (ground arith)
  Patched-pod rev pod obj' r s t q diverges on outside i h patch = absurd (ground arith)

  Patched-at :
      (rev : AdmissionReview) (obj obj' : Object) (r : MutatorResult) (s t : S) (q : Pod)
      (on kube : Bool)
      → is_injection_enabled mut.extractor (object_meta obj) ≡ on
      → str_eq rev.namespace (text "kube-system") ≡ kube
      → mutate client fuel mut none rev obj s ≡ returns ((obj', ok r), t)
      → r.mutated_object ≡ some q
      → Patched none rev obj s t q
  Patched-at rev obj obj' r s t q false kube on k h patch = absurd (unfold mutate in ground arith)
  Patched-at rev obj obj' r s t q true true on k h patch = absurd (unfold mutate in ground arith)
  Patched-at rev (other m) obj' r s t q true false on k h patch =
      absurd (unfold mutate in ground arith)
  Patched-at rev (a_pod pod) obj' r s t q true false on k h patch =
      Patched-pod rev pod obj' r s t q _ on k refl h patch

  -- The webhook patches an object only if it is a pod with the injection label set to `true`, in a
  -- namespace other than kube-system, and the context is not done; the patch is then that of the CA
  -- step, the JVM step and the Python step, one after the other.
  pub mutate-Patched :
      (done : Option Error) (rev : AdmissionReview) (obj obj' : Object) (r : MutatorResult)
      (s t : S) (q : Pod)
      → mutate client fuel mut done rev obj s ≡ returns ((obj', ok r), t)
      → r.mutated_object ≡ some q
      → Patched done rev obj s t q
  mutate-Patched none rev obj obj' r s t q h patch =
      Patched-at rev obj obj' r s t q _ _ refl refl h patch
  mutate-Patched (some e) rev obj obj' r s t q h patch = absurd (unfold mutate in ground arith)
