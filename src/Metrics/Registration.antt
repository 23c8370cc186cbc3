-- ===== src/Metrics/Registration.antt =====
-- The registration of the counters: their names differ, so that a fresh registry takes all of them.
use cain.Prelude.{◌≡◌, ◌≢◌, refl, sym, true, none, List, [], ◌∷◌, map, arith, All, subst}
use cain.Go.Text.{GoString, text, str_eq}
use cain.Go.Text.Distinct.{IsDistinct, distinct, IsDistinct-map}
use cain.Metrics.{
  CounterOpts, CounterLibrary, Prometheus, metrics_namespace, counter, register_all, counters_of,
  new_prometheus, made,
}

module _ {V R : Type 0} (lib : CounterLibrary V R) (desc : V → GoString)
    (fq_name : GoString → GoString → GoString → GoString) (registered : R → List GoString)
    (IsValid : V → Type 0) where
  -- A vector is described by its full name, of the namespace, the subsystem and the name in its options.
  abbrev pub IsNamed : Type 0
  IsNamed =
      (opts : CounterOpts) (labels : List GoString)
      → desc (lib.new_counter_vec opts labels) ≡ fq_name opts.namespace opts.subsystem opts.name

  -- A registry takes a valid vector whose description is not there.
  abbrev pub IsRegistering : Type 0
  IsRegistering =
      (v : V) (reg : R)
      → IsValid v
      → All (λ d. d ≢ desc v) (registered reg)
      → ((lib.register v reg).0 ≡ none)
        × (registered (lib.register v reg).1 ≡ desc v ∷ registered reg)

  -- No vector of the list is described as one of the registry.
  abbrev AreNew : List V → List GoString → Type 0
  AreNew vs ds = All (λ v. All (λ d. d ≢ desc v) ds) vs

  AreNew-more :
      (d : GoString) (ds : List GoString) (vs : List V)
      → AreNew vs ds
      → All (λ y. d ≢ y) (map desc vs)
      → AreNew vs (d ∷ ds)
  AreNew-more d ds [] new differ = tt
  AreNew-more d ds (v ∷ vs) new differ = ((differ.0, new.0), AreNew-more d ds vs new.1 differ.1)

  register_all-taken :
      (registering : IsRegistering) (vs : List V) (reg : R)
      → All IsValid vs
      → AreNew vs (registered reg)
      → IsDistinct (map desc vs)
      → (register_all lib vs reg).0 ≡ []
  unfolding register_all
  register_all-taken registering [] reg valid new apart = refl
  register_all-taken registering (v ∷ vs) reg valid new apart =
      let (taken, there) = registering v reg valid.0 new.0 in
      let rest =
        register_all-taken registering vs (lib.register v reg).1 valid.1
          (subst (AreNew vs) (sym there) (AreNew-more (desc v) (registered reg) vs new.1 apart.0))
          apart.1 in
      ground arith

  AreNew-empty : (vs : List V) → AreNew vs []
  AreNew-empty [] = tt
  AreNew-empty (v ∷ vs) = (tt, AreNew-empty vs)

  abbrev names : List GoString
  names =
      text "resource_already_exists_total"
      ∷ text "resource_create_errors_total"
      ∷ text "resource_created_total"
      ∷ text "resource_not_found_total"
      ∷ text "resource_deleted_total"
      ∷ text "resource_delete_errors_total"
      ∷ []

  names-distinct : distinct names ≡ true
  unfolding distinct str_eq text
  names-distinct = refl

  -- The vectors in the order of their registration.
  abbrev pub in_order : Prometheus V → List V
  in_order p =
      p.already_exists ∷ p.create_error ∷ p.created ∷ p.not_found ∷ p.deleted ∷ p.delete_error ∷ []

  cons_path :
      {a b : GoString} {xs ys : List GoString}
      → a ≡ b
      → xs ≡ ys
      → ◌≡◌ {A = List GoString} (a ∷ xs) (b ∷ ys)
  cons_path e es = cc (e, es)

  described :
      (named : IsNamed) (subsys : GoString)
      → map desc (in_order (counters_of lib subsys)) ≡ map (fq_name metrics_namespace subsys) names
  unfolding counters_of counter
  described named subsys = cons_path (named _ _) (
      cons_path (named _ _) (
        cons_path (named _ _)
          (cons_path (named _ _) (cons_path (named _ _) (cons_path (named _ _) refl)))))

  -- On a library whose fresh registry is empty, which names vectors injectively as documented, and whose
  -- registry takes a valid vector with a new name, the construction succeeds for a subsystem whose six
  -- vectors are valid: their full names differ.
  pub new_prometheus-made :
      (named : IsNamed) (registering : IsRegistering) (subsys : GoString)
      → ((a b : GoString)
          → fq_name metrics_namespace subsys a ≡ fq_name metrics_namespace subsys b
          → a ≡ b)
      → registered lib.new_pedantic_registry ≡ []
      → All IsValid (in_order (counters_of lib subsys))
      → (reg : R) × (new_prometheus lib subsys ≡ made (counters_of lib subsys) reg)
  unfolding new_prometheus
  new_prometheus-made named registering subsys injective fresh valid =
      let p = counters_of lib subsys in
      let none_refused : (register_all lib (in_order p) lib.new_pedantic_registry).0 ≡ [] =
        register_all-taken registering (in_order p) lib.new_pedantic_registry valid
          (subst (AreNew (in_order p)) (sym fresh) (AreNew-empty (in_order p)))
          (subst IsDistinct (sym (described named subsys))
            (IsDistinct-map (fq_name metrics_namespace subsys) injective names names-distinct)) in
      ((register_all lib (in_order p) lib.new_pedantic_registry).1, rw none_refused refl)
