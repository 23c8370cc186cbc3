-- ===== src/Metrics/Counts.antt =====
-- The counters count the calls: each its own kind, by its two labels.
use cain.Prelude.{ℕ, ◌+◌, ◌≡◌, Bool, ◌&&◌, List, [], ◌∷◌, arith, nat_eq, if◌then◌else◌}
use cain.Go.Text.{GoString, str_eq}
use cain.Kube.Metrics.{
  MetricsCall, call_namespace, resource_already_exists, resource_create_error, resource_created,
  resource_not_found, resource_deleted, resource_delete_error,
}
use cain.Metrics.{CounterLibrary, Prometheus, record_call, record_calls}

-- The second argument of a call.
abbrev pub call_gvk : MetricsCall → GoString
call_gvk (resource_already_exists ns gvk) = gvk
call_gvk (resource_create_error ns gvk) = gvk
call_gvk (resource_created ns gvk) = gvk
call_gvk (resource_not_found ns gvk) = gvk
call_gvk (resource_deleted ns gvk) = gvk
call_gvk (resource_delete_error ns gvk) = gvk

abbrev same_labels : GoString → GoString → GoString → GoString → Bool
same_labels ns gvk ns' gvk' = str_eq ns ns' && str_eq gvk gvk'

abbrev pub method : MetricsCall → ℕ
method (resource_already_exists ns gvk) = 0
method (resource_create_error ns gvk) = 1
method (resource_created ns gvk) = 2
method (resource_not_found ns gvk) = 3
method (resource_deleted ns gvk) = 4
method (resource_delete_error ns gvk) = 5

abbrev pub same_call : MetricsCall → MetricsCall → Bool
same_call a c =
    nat_eq (method a) (method c)
    && same_labels (call_namespace a) (call_gvk a) (call_namespace c) (call_gvk c)

-- How often a call is in the list.
pub count : MetricsCall → List MetricsCall → ℕ
count c [] = 0
count c (a ∷ calls) = (if same_call a c then 1 else 0) + count c calls

module _ {V R : Type 0} (lib : CounterLibrary V R) (value : GoString → GoString → V → ℕ) where
  -- `value` reads a counter of the vector by its labels: an increment raises the one that it names.
  abbrev pub IsCounting : Type 0
  IsCounting =
      (ns gvk ns' gvk' : GoString) (v : V)
      → value ns' gvk' (lib.inc ns gvk v)
        ≡ (if same_labels ns gvk ns' gvk' then 1 else 0) + value ns' gvk' v

  abbrev pub counter_for : MetricsCall → Prometheus V → V
  counter_for (resource_already_exists ns gvk) p = p.already_exists
  counter_for (resource_create_error ns gvk) p = p.create_error
  counter_for (resource_created ns gvk) p = p.created
  counter_for (resource_not_found ns gvk) p = p.not_found
  counter_for (resource_deleted ns gvk) p = p.deleted
  counter_for (resource_delete_error ns gvk) p = p.delete_error

  -- What the counter of a call shows under the labels of the call.
  abbrev pub shown : MetricsCall → Prometheus V → ℕ
  shown c p = value (call_namespace c) (call_gvk c) (counter_for c p)

  count_one :
      (counting : IsCounting) (c a : MetricsCall) (p : Prometheus V)
      → shown c (record_call lib a p) ≡ (if same_call a c then 1 else 0) + shown c p
  unfolding record_call
  count_one counting c a p = ground (
    arith,
    counting (call_namespace a) (call_gvk a) (call_namespace c) (call_gvk c) (counter_for c p),
  )

  -- After any calls in any order, the counter of a call shows under its labels what it showed before,
  -- and one more for each time that the call was made; calls of other methods or labels do not count.
  pub record_calls-count :
      (counting : IsCounting) (c : MetricsCall) (calls : List MetricsCall) (p : Prometheus V)
      → shown c (record_calls lib calls p) ≡ count c calls + shown c p
  unfolding record_calls count
  record_calls-count counting c [] p = omega arith
  record_calls-count counting c (a ∷ calls) p =
      ground
        (arith, record_calls-count counting c calls (record_call lib a p), count_one counting c a p)
