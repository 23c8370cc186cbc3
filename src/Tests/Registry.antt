-- ===== src/Tests/Registry.antt =====
-- A registry that is the list of the names it has.
use mathlib.Core.List.{append_cancel_left}
use cain.Prelude.{
  ◌≡◌, ◌≢◌, refl, Bool, true, false, none, some, List, [], ◌∷◌, ◌++◌, arith, All, if◌then◌else◌,
}
use cain.Go.Text.{GoString, text, str_eq, str_eq_iff}
use cain.Go.Errors.{errors_new}
use cain.Metrics.{CounterLibrary, counter, counters_of, new_prometheus, made, metrics_namespace}
use cain.Metrics.Registration.{IsRegistering, in_order, new_prometheus-made}

abbrev has : GoString → List GoString → Bool
has v [] = false
has v (d ∷ ds) = if str_eq d v then true else has v ds

-- `BuildFQName` for a namespace and a subsystem.
abbrev fq_name : GoString → GoString → GoString → GoString
fq_name namespace subsystem name = (namespace ++ b'_' ∷ (subsystem ++ b'_' ∷ [])) ++ name

abbrev library : CounterLibrary GoString (List GoString)
library = record {
  new_counter_vec = λ opts labels. fq_name opts.namespace opts.subsystem opts.name;
  inc = λ ns gvk v. v;
  new_pedantic_registry = [];
  register = λ v reg.
      if str_eq v []
      then (some (errors_new (text "invalid descriptor")), reg)
      else if has v reg
      then (some (errors_new (text "duplicate metrics")), reg)
      else (none, v ∷ reg);
}

has_not : (v : GoString) (reg : List GoString) → All (λ d. d ≢ v) reg → has v reg ≡ false
has_not v [] new = refl
has_not v (d ∷ ds) new = ground (arith, str_eq_iff d v, has_not v ds new.1)

-- A vector of this library is valid if its full name is not empty.
abbrev IsNonEmpty : GoString → Type 0
IsNonEmpty v = str_eq v [] ≡ false

library-IsRegistering : IsRegistering library (λ v. v) fq_name (λ reg. reg) IsNonEmpty
library-IsRegistering v reg valid new = rw (valid, has_not v reg new) (refl, refl)

six_valid :
    All IsNonEmpty (
      in_order library (λ v. v) fq_name (λ reg. reg) IsNonEmpty (counters_of library (text "pods")))
unfolding str_eq counters_of counter text
six_valid = (refl, (refl, (refl, (refl, (refl, (refl, tt))))))

new_prometheus-made_example :
    (reg : List GoString) × (new_prometheus library (text "pods")
      ≡ made (counters_of library (text "pods")) reg)
new_prometheus-made_example =
    new_prometheus-made library (λ v. v) fq_name (λ reg. reg) IsNonEmpty (λ opts labels. refl)
      library-IsRegistering (text "pods")
      (λ a b e. append_cancel_left (metrics_namespace ++ b'_' ∷ (text "pods" ++ b'_' ∷ [])) a b e)
      refl six_valid
