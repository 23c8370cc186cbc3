-- ===== src/Webhook/Config/Resources.antt =====
-- `NewContainerResources`: which texts become which quantities.
use cain.Prelude.{◌≡◌, ◌≢◌, refl, ◌⊎◌, inl, inr, ◌∷◌, [], arith}
use cain.Go.Text.{GoString, str_eq}
use cain.Go.Errors.{Result, ok, err}
use cain.Kube.Pods.{Quantity}
use cain.Webhook.Config.{
  ContainerResources, ContainerResourcesEnv, or_default, new_container_resources, to_k8s,
}

-- The quantity is parsed from the text, or where that is empty from the one of the limit.
abbrev pub IsRequest : (GoString → Result Quantity) → GoString → GoString → Quantity → Type 0
IsRequest parse request limit q =
    (request ≡ []) × (parse limit ≡ ok q) ⊎ (request ≢ []) × (parse request ≡ ok q)

module _ (parse : GoString → Result Quantity) (env : ContainerResourcesEnv) where
  -- Each quantity of the result is parsed from its own text.
  pub record AreParsed (res : ContainerResources) : Type 0 where
    pub cpu_limit : parse env.cpu_limit ≡ ok res.cpu.limit
    pub mem_limit : parse env.mem_limit ≡ ok res.memory.limit
    pub cpu_request : IsRequest parse env.cpu_request env.cpu_limit res.cpu.request
    pub mem_request : IsRequest parse env.mem_request env.mem_limit res.memory.request

  default_IsRequest :
      (request limit : GoString) (q : Quantity)
      → parse (or_default request limit) ≡ ok q
      → IsRequest parse request limit q
  unfolding str_eq
  default_IsRequest [] limit q h = inl (refl, h)
  default_IsRequest (c ∷ s) limit q h = inr ((λ e. cc e), h)

  parsed :
      (res : ContainerResources) (a b c d : Result Quantity)
      → parse env.cpu_limit ≡ a
      → parse env.mem_limit ≡ b
      → parse (or_default env.cpu_request env.cpu_limit) ≡ c
      → parse (or_default env.mem_request env.mem_limit) ≡ d
      → new_container_resources parse env ≡ ok res
      → AreParsed res
  unfolding new_container_resources
  parsed res (err e) b c d pa pb pc pd h = absurd (ground arith)
  parsed res (ok a) (err e) c d pa pb pc pd h = absurd (ground arith)
  parsed res (ok a) (ok b) (err e) d pa pb pc pd h = absurd (ground arith)
  parsed res (ok a) (ok b) (ok c) (err e) pa pb pc pd h = absurd (ground arith)
  parsed res (ok a) (ok b) (ok c) (ok d) pa pb pc pd h = record {
    cpu_limit = ground arith;
    mem_limit = ground arith;
    cpu_request = default_IsRequest env.cpu_request env.cpu_limit res.cpu.request (ground arith);
    mem_request = default_IsRequest env.mem_request env.mem_limit res.memory.request (ground arith);
  }

  default_same :
      (request limit : GoString) (a b : Quantity)
      → IsRequest parse request limit a
      → request ≡ []
      → parse limit ≡ ok b
      → a ≡ b
  default_same request limit a b (inl (empty, p)) e pb = cc (p, pb)
  default_same request limit a b (inr (given, p)) e pb = absurd (given e)

  requests_eq_limits :
      (res : ContainerResources)
      → AreParsed res
      → env.cpu_request ≡ []
      → env.mem_request ≡ []
      → (to_k8s res).requests ≡ (to_k8s res).limits
  unfolding to_k8s
  requests_eq_limits res p no_cpu no_mem =
      let cpu : res.cpu.request ≡ res.cpu.limit =
        default_same env.cpu_request env.cpu_limit _ _ p.cpu_request no_cpu p.cpu_limit in
      let mem : res.memory.request ≡ res.memory.limit =
        default_same env.mem_request env.mem_limit _ _ p.mem_request no_mem p.mem_limit in
      cc (cpu, mem)

  -- A success has parsed each limit from its own text, and each request from its own text, or from that
  -- of its limit where its own is empty.
  pub new_container_resources_parsed :
      (res : ContainerResources) → new_container_resources parse env ≡ ok res → AreParsed res
  new_container_resources_parsed res h = parsed res _ _ _ _ refl refl refl refl h

  -- Without texts of the two requests, the requests of the init container are its limits.
  pub requests_default_to_limits :
      (res : ContainerResources)
      → new_container_resources parse env ≡ ok res
      → env.cpu_request ≡ []
      → env.mem_request ≡ []
      → (to_k8s res).requests ≡ (to_k8s res).limits
  requests_default_to_limits res h no_cpu no_mem =
      requests_eq_limits res (new_container_resources_parsed res h) no_cpu no_mem
