-- ===== src/Metrics.antt =====
-- metrics/prometheus.go: the counters behind the metrics calls of the workers.
pub mod Counts
pub mod Registration
use cain.Prelude.{Option, none, some, List, [], ◌∷◌}
use cain.Go.Text.{GoString, text}
use cain.Go.Errors.{Error}
use cain.Kube.Metrics.{
  MetricsCall, resource_already_exists, resource_create_error, resource_created, resource_not_found,
  resource_deleted, resource_delete_error,
}

abbrev pub metrics_namespace : GoString
metrics_namespace = text "cain"

abbrev pub label_names : List GoString
label_names = text "namespace" ∷ text "groupVersionKind" ∷ []

-- `prometheus.CounterOpts`
pub record CounterOpts : Type 0 where
  pub name : GoString
  pub help : GoString
  pub namespace : GoString
  pub subsystem : GoString

-- The Prometheus library: `V` is `*prometheus.CounterVec`, and `R` the state of a pedantic registry.
pub record CounterLibrary (V R : Type 0) : Type 0 where
  pub new_counter_vec : CounterOpts → List GoString → V
  -- `WithLabelValues(ns, gvk).Inc()`
  pub inc : GoString → GoString → V → V
  pub new_pedantic_registry : R
  pub register : V → R → Option Error × R

pub record Prometheus (V : Type 0) : Type 0 where
  pub already_exists : V
  pub create_error : V
  pub created : V
  pub deleted : V
  pub not_found : V
  pub delete_error : V

-- The counters with their registry, or the errors that `errors.Join` joins, in order.
pub data NewPrometheus (V R : Type 0) : Type 0 where
  made : Prometheus V → R → NewPrometheus V R
  refused : List Error → NewPrometheus V R

module _ {V R : Type 0} (lib : CounterLibrary V R) where
  unfoldable pub counter : GoString → GoString → GoString → V
  counter subsys name help =
      lib.new_counter_vec
        (record { name = name; help = help; namespace = metrics_namespace; subsystem = subsys })
        label_names

  -- The registrations, one after the other, and the errors that are not nil.
  unfoldable pub register_all : List V → R → List Error × R
  register_all [] reg = ([], reg)
  register_all (v ∷ vs) reg =
      let (failed, reg') = lib.register v reg in
      let (errors, last) = register_all vs reg' in
      (elim failed [ none ↦ errors | some e ↦ e ∷ errors ], last)

  unfoldable pub counters_of : GoString → Prometheus V
  unfolding counter
  counters_of subsys = record {
    already_exists =
        counter subsys (text "resource_already_exists_total")
          (text "Number of times a resource in a namespace already exists");
    create_error =
        counter subsys (text "resource_create_errors_total")
          (text "Number of errors when creating a resource in a namespace");
    created =
        counter subsys (text "resource_created_total")
          (text "Number of resources created in a namespace");
    deleted =
        counter subsys (text "resource_deleted_total")
          (text "Number of resources deleted in a namespace");
    not_found =
        counter subsys (text "resource_not_found_total")
          (text "Number of resources not found in a namespace");
    delete_error =
        counter subsys (text "resource_delete_errors_total")
          (text "Number of errors deleting a resource in a namespace");
  }

  unfoldable pub new_prometheus : GoString → NewPrometheus V R
  unfolding counters_of register_all
  new_prometheus subsys =
      let p = counters_of subsys in
      let (errors, reg) =
        register_all
          (p.already_exists ∷ p.create_error ∷ p.created ∷ p.not_found ∷ p.deleted ∷ p.delete_error
            ∷ [])
          lib.new_pedantic_registry in
      elim errors [ [] ↦ made p reg | e ∷ more ↦ refused (e ∷ more) ]

  -- The six methods, by the call.
  unfoldable pub record_call : MetricsCall → Prometheus V → Prometheus V
  record_call (resource_already_exists ns gvk) p = record p {
    already_exists = lib.inc ns gvk p.already_exists;
  }
  record_call (resource_create_error ns gvk) p = record p {
    create_error = lib.inc ns gvk p.create_error;
  }
  record_call (resource_created ns gvk) p = record p { created = lib.inc ns gvk p.created }
  record_call (resource_deleted ns gvk) p = record p { deleted = lib.inc ns gvk p.deleted }
  record_call (resource_delete_error ns gvk) p = record p {
    delete_error = lib.inc ns gvk p.delete_error;
  }
  record_call (resource_not_found ns gvk) p = record p { not_found = lib.inc ns gvk p.not_found }

  unfoldable pub record_calls : List MetricsCall → Prometheus V → Prometheus V
  unfolding record_call
  record_calls [] p = p
  record_calls (call ∷ calls) p = record_calls calls (record_call call p)
