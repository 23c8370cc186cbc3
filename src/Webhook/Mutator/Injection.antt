-- ===== src/Webhook/Mutator/Injection.antt =====
-- `injectCA` and `Mutate`: the ways in which they end, and that they only add to the pod.
use cain.Prelude.{
  ℕ, ◌≡◌, refl, ◌⊎◌, inl, inr, Bool, true, false, Option, none, some, arith, subst, sym, Bool-cases,
}
use cain.Go.Text.{GoString}
use cain.Go.Errors.{Error}
use cain.Go.Exec.{Exec, returns, panics, diverges}
use cain.Kube.Pods.{Pod}
use cain.Kube.Client.{Client}
use cain.Metadata.{secret_volume_name, ca_volume_name, is_python_enabled}
use cain.Webhook.Mutator.State.{Mutator}
use cain.Webhook.Mutator.Volumes.{add_ca_secret_volumes}
use cain.Webhook.Mutator.Env.{should_add_jvm_ca, add_jvm_secret_and_env}
use cain.Webhook.Mutator.Handler.{MutatorResult, has_ca_init_container, inject_jvm, inject_ca}
use cain.Webhook.Mutator.Extends.{
  PodExtends, PodExtends-refl, PodExtends-trans, PodExtends-with_ca_volumes, PodExtends-with_jvm,
  PodExtends-add_python_env,
}
use cain.Webhook.Mutator.Outcomes.{CaAdded, JvmAdded, add_ca_outcome, add_jvm_outcome}
use cain.Webhook.Mutator.Python.{python_step, inject_python_total}

module _ {S : Type 0} (client : Client S) (fuel : ℕ) (mut : Mutator) (namespace : GoString) where
  -- The JVM step of the injection, from `p` at `u` to `q` at `t`.
  abbrev pub JvmStep : Pod → S → S → Pod → Type 0
  JvmStep p u t q =
      (should_add_jvm_ca mut p ≡ false) × (q ≡ p) × (t ≡ u)
      ⊎ (should_add_jvm_ca mut p ≡ true) × JvmAdded client fuel mut p namespace u t q

  -- A complete injection: the CA step, the JVM step and the Python step.
  pub record Injected (pod : Pod) (s t : S) (q : Pod) : Type 0 where
    pub fresh : has_ca_init_container pod.init_containers ≡ false
    pub with_ca : Pod
    pub middle : S
    pub ca_step :
        CaAdded client fuel mut pod namespace s middle
          (secret_volume_name mut.extractor pod.meta)
          (ca_volume_name mut.extractor pod.meta)
          with_ca
    pub jvm : Pod
    pub jvm_step : JvmStep with_ca middle t jvm
    pub result : q ≡ python_step mut jvm

  abbrev pub Outcome : Pod → S → S → Pod → MutatorResult → Type 0
  Outcome pod s t q r =
      (r.mutated_object ≡ some q) × Injected pod s t q
      ⊎ (r.mutated_object ≡ none) × PodExtends pod q

  pub CaAdded-extends :
      (pod : Pod) (s t : S) (secret_volume ca_volume : GoString) (q : Pod)
      → CaAdded client fuel mut pod namespace s t secret_volume ca_volume q
      → PodExtends pod q
  CaAdded-extends pod s t secret_volume ca_volume q a =
      subst (PodExtends pod) (sym a.result)
        (PodExtends-with_ca_volumes mut pod a.volumes secret_volume ca_volume)

  jvm_outcome :
      (p q : Pod) (r : MutatorResult) (u t : S) (b : Bool) (x : Exec ((Pod × Option Error) × S))
      → should_add_jvm_ca mut p ≡ b
      → add_jvm_secret_and_env client fuel mut p namespace u ≡ x
      → inject_jvm client fuel mut p namespace u ≡ returns ((q, r), t)
      → (r.mutated_object ≡ some q) × ((m : Pod) × JvmStep p u t m × (q ≡ python_step mut m))
        ⊎ (r.mutated_object ≡ none) × (q ≡ p)
  unfolding inject_jvm
  jvm_outcome p q r u t false x b a h = inl (
    ground (arith, inject_python_total mut p),
    (p, inl (b, refl, ground arith), ground (arith, inject_python_total mut p)),
  )
  jvm_outcome p q r u t true (returns ((p', none), v)) b a h =
      elim (add_jvm_outcome client fuel mut p namespace u v none p' _ refl a) [
        | inl (_, added) ↦ inl (
          ground (arith, inject_python_total mut p'),
          (
            p',
            inr (b, subst (λ w. JvmAdded client fuel mut p namespace u w p') (ground arith) added),
            ground (arith, inject_python_total mut p'),
          ),
        )
        | inr failed ↦ absurd (let e = failed.reported in cc)
      ]
  jvm_outcome p q r u t true (returns ((p', some e), v)) b a h =
      elim (add_jvm_outcome client fuel mut p namespace u v (some e) p' _ refl a) [
        | inl (never, _) ↦ absurd (cc)
        | inr failed ↦ inr (ground arith, let e = failed.unchanged in ground arith)
      ]
  jvm_outcome p q r u t true (panics why) b a h = absurd (ground arith)
  jvm_outcome p q r u t true diverges b a h = absurd (ground arith)

  pub inject-Outcome :
      (pod q : Pod) (r : MutatorResult) (s t : S) (b : Bool) (x : Exec ((Pod × Option Error) × S))
      → has_ca_init_container pod.init_containers ≡ b
      → add_ca_secret_volumes client fuel mut pod namespace
          (secret_volume_name mut.extractor pod.meta)
          (ca_volume_name mut.extractor pod.meta)
          s
        ≡ x
      → inject_ca client fuel mut pod namespace s ≡ returns ((q, r), t)
      → Outcome pod s t q r
  unfolding inject_ca
  inject-Outcome pod q r s t true x b a h =
      inr (ground arith, subst (PodExtends pod) (ground arith) (PodExtends-refl pod))
  inject-Outcome pod q r s t false (returns ((p', some e), v)) b a h =
      elim (add_ca_outcome client fuel mut pod namespace s v _ _ (some e) p' _ refl a) [
        | inl (never, _) ↦ absurd (cc)
        | inr failed ↦
            (let same = failed.unchanged in
              inr (ground arith, subst (PodExtends pod) (ground arith) (PodExtends-refl pod)))
      ]
  inject-Outcome pod q r s t false (returns ((p', none), v)) b a h =
      elim (add_ca_outcome client fuel mut pod namespace s v _ _ none p' _ refl a) [
        | inl (_, added) ↦
            elim (jvm_outcome p' q r v t (should_add_jvm_ca mut p') _ refl refl (ground arith)) [
              | inl (result, (m, step, python)) ↦ inl (
                result,
                record {
                  fresh = b;
                  with_ca = p';
                  middle = v;
                  ca_step = added;
                  jvm = m;
                  jvm_step = step;
                  result = python;
                },
              )
              | inr (result, same) ↦
                  inr (
                    result,
                    subst (PodExtends pod) (sym same) (CaAdded-extends pod s v _ _ p' added),
                  )
            ]
        | inr failed ↦ absurd (let e = failed.reported in cc)
      ]
  inject-Outcome pod q r s t false (panics why) b a h = absurd (ground arith)
  inject-Outcome pod q r s t false diverges b a h = absurd (ground arith)

  JvmStep-extends : (p : Pod) (u t : S) (q : Pod) → JvmStep p u t q → PodExtends p q
  JvmStep-extends p u t q (inl (off, same, st)) =
      subst (PodExtends p) (sym same) (PodExtends-refl p)
  JvmStep-extends p u t q (inr (on, added)) =
      subst (PodExtends p) (sym added.result) (PodExtends-with_jvm mut p added.owner.name)

  pub python_step_extends : (p : Pod) → PodExtends p (python_step mut p)
  unfolding python_step
  python_step_extends p = elim (Bool-cases (is_python_enabled mut.extractor p.meta)) [
    | inl on ↦ rw on (PodExtends-add_python_env mut p)
    | inr off ↦ rw off (PodExtends-refl p)
  ]

  -- The steps behind the CA step extend the pod of the CA step.
  pub later_steps_extend :
      (pod : Pod) (s t : S) (q : Pod) (i : Injected pod s t q) → PodExtends i.with_ca q
  later_steps_extend pod s t q i = subst (PodExtends i.with_ca) (sym i.result) (
      PodExtends-trans i.with_ca i.jvm (python_step mut i.jvm)
        (JvmStep-extends i.with_ca i.middle t i.jvm i.jvm_step) (python_step_extends i.jvm))

  pub Injected-extends : (pod : Pod) (s t : S) (q : Pod) → Injected pod s t q → PodExtends pod q
  Injected-extends pod s t q i =
      PodExtends-trans pod i.with_ca q (CaAdded-extends pod s i.middle _ _ i.with_ca i.ca_step)
        (later_steps_extend pod s t q i)
