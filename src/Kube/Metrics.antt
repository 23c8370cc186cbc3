-- ===== src/Kube/Metrics.antt =====
-- The interfaces `CreatorMetrics` and `DeleterMetrics`: a call of them, with its two arguments.
use cain.Go.Text.{GoString}

pub data MetricsCall : Type 0 where
  resource_already_exists : GoString → GoString → MetricsCall
  resource_create_error : GoString → GoString → MetricsCall
  resource_created : GoString → GoString → MetricsCall
  resource_not_found : GoString → GoString → MetricsCall
  resource_deleted : GoString → GoString → MetricsCall
  resource_delete_error : GoString → GoString → MetricsCall

pub record GroupVersionKind : Type 0 where
  pub group : GoString
  pub version : GoString
  pub kind : GoString

-- The namespace of a call, its first argument.
abbrev pub call_namespace : MetricsCall → GoString
call_namespace (resource_already_exists ns gvk) = ns
call_namespace (resource_create_error ns gvk) = ns
call_namespace (resource_created ns gvk) = ns
call_namespace (resource_not_found ns gvk) = ns
call_namespace (resource_deleted ns gvk) = ns
call_namespace (resource_delete_error ns gvk) = ns
