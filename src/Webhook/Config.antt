-- ===== src/Webhook/Config.antt =====
-- `CASecret` and `ContainerResources` of webhook/utils.go.
pub mod CaSecrets
pub mod Resources
use cain.Prelude.{Option, none, some, List, [], ◌∷◌, if◌then◌else◌}
use cain.Go.Text.{GoString, text, str_eq, split}
use cain.Go.Errors.{Error, Result, errors_new, ok, ◌>>=◌, wrap}
use cain.Kube.Pods.{Quantity, ResourceRequirements}

abbrev pub err_misformed_secret_name : Error
err_misformed_secret_name = errors_new (text "malformed secret name")

pub record CaSecret : Type 0 where
  pub name : GoString
  pub keys : List GoString

-- The receiver after the call, and the error.
unfoldable pub unmarshal_text : CaSecret → GoString → CaSecret × Option Error
unmarshal_text cs s = elim (split b'/' s) [
  | secret_name ∷ secret_value ∷ [] ↦
      (record { name = secret_name; keys = split b',' secret_value }, none)
  | _ ↦ (cs, some err_misformed_secret_name)
]

pub record ResourceBounds : Type 0 where
  pub limit : Quantity
  pub request : Quantity

pub record ContainerResources : Type 0 where
  pub cpu : ResourceBounds
  pub memory : ResourceBounds

pub record ContainerResourcesEnv : Type 0 where
  pub cpu_limit : GoString
  pub mem_limit : GoString
  pub cpu_request : GoString
  pub mem_request : GoString

abbrev pub or_default : GoString → GoString → GoString
or_default s default = if str_eq s [] then default else s

-- `parse_quantity` is `resource.ParseQuantity` of the Kubernetes libraries.
unfoldable pub new_container_resources :
    (GoString → Result Quantity) → ContainerResourcesEnv → Result ContainerResources
new_container_resources parse_quantity env = do
  let cpu_request_text = or_default env.cpu_request env.cpu_limit
  let mem_request_text = or_default env.mem_request env.mem_limit
  cpu_limit ← wrap (text "parsing CPU limit: %w") [] (parse_quantity env.cpu_limit)
  mem_limit ← wrap (text "parsing Memory limit: %w") [] (parse_quantity env.mem_limit)
  cpu_request ← wrap (text "parsing CPU request: %w") [] (parse_quantity cpu_request_text)
  mem_request ← wrap (text "parsing Memory request: %w") [] (parse_quantity mem_request_text)
  ok (record {
    cpu = record { limit = cpu_limit; request = cpu_request };
    memory = record { limit = mem_limit; request = mem_request };
  })

unfoldable pub to_k8s : ContainerResources → ResourceRequirements
to_k8s res = record {
  limits = (text "cpu", res.cpu.limit) ∷ (text "memory", res.memory.limit) ∷ [];
  requests = (text "cpu", res.cpu.request) ∷ (text "memory", res.memory.request) ∷ [];
}
