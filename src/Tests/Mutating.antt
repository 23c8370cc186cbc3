-- ===== src/Tests/Mutating.antt =====
-- The mutating webhook on the pod of the tests.
use cain.Prelude.{◌≡◌, refl, none, false}
use cain.Go.Text.{text, str_eq}
use cain.Go.Errors.{Result, ok}
use cain.Go.Exec.{returns}
use cain.Kube.Pods.{Pod, a_pod}
use cain.Go.Format.{sprintf}
use cain.Go.Maps.{index, lookup}
use cain.Metadata.{
  new_extractor, is_injection_enabled, get_extra_secrets_to_inject, ca_volume_name,
  secret_volume_name, is_jvm_enabled, is_python_enabled, family,
}
use cain.Webhook.Owner.{root_owner, kind_func}
use cain.Webhook.Mutator.State.{new_mutator}
use cain.Webhook.Mutator.Sources.{projected_sources}
use cain.Webhook.Mutator.Volumes.{add_ca_secret_volumes, get_ca_secret_volumes, with_ca_volumes}
use cain.Webhook.Mutator.Env.{
  should_add_jvm_ca, no_truststore_volume, add_jvm_secret_and_env, with_jvm, add_python_env,
  certs_path,
}
use cain.Webhook.Mutator.Python.{python_step}
use cain.Webhook.Review.{create_operation}
use cain.Webhook.Mutator.Handler.{
  MutatorResult, mutate, inject_ca, has_ca_init_container, inject_jvm, inject_python,
}
use cain.Webhook.Mutator.Mutation.{ObjectExtends, Patches, mutate_extends}
use cain.Webhook.Mutator.Patched.{Patched, mutate-Patched}
use cain.Webhook.Mutator.Bundle.{HasBundle, mutate_bundle}
use cain.Webhook.Mutator.Idempotence.{PatchesNothing, mutate_idempotent}
use cain.Tests.Fixtures.{client, mutator, review, pod, patched, patch}

pub pod-patched :
    mutate client 2 mutator none (review create_operation false) (a_pod pod) tt
    ≡ returns ((a_pod patched, ok patch), tt)
unfolding mutate is_injection_enabled index lookup str_eq text new_mutator new_extractor sprintf
    inject_ca has_ca_init_container add_ca_secret_volumes root_owner kind_func get_ca_secret_volumes
    projected_sources get_extra_secrets_to_inject ca_volume_name secret_volume_name inject_jvm
    should_add_jvm_ca no_truststore_volume with_ca_volumes is_jvm_enabled add_jvm_secret_and_env
    with_jvm inject_python is_python_enabled add_python_env certs_path family python_step
pod-patched = refl

mutate_extends_example :
    ObjectExtends (a_pod pod) (a_pod patched) × Patches (a_pod patched) (ok patch)
mutate_extends_example =
    mutate_extends client 2 mutator none (review create_operation false) (a_pod pod) (a_pod patched)
      (ok patch) tt tt pod-patched

mutate-Patched_example :
    Patched client 2 mutator none (review create_operation false) (a_pod pod) tt tt patched
mutate-Patched_example =
    mutate-Patched client 2 mutator none (review create_operation false) (a_pod pod) (a_pod patched)
      patch tt tt patched pod-patched refl

mutate_bundle_example : (p : Pod) × (a_pod pod ≡ a_pod p) × HasBundle mutator p patched
mutate_bundle_example =
    mutate_bundle client 2 mutator none (review create_operation false) (a_pod pod) (a_pod patched)
      patch tt tt patched pod-patched refl

mutate_idempotent_example :
    (res : Result MutatorResult) × PatchesNothing res
    × (mutate client 2 mutator none (review create_operation false) (a_pod patched) tt
        ≡ returns ((a_pod patched, res), tt))
mutate_idempotent_example =
    mutate_idempotent client client 2 2 mutator none none (review create_operation false)
      (review create_operation false) (a_pod pod) (a_pod patched) patch tt tt patched tt pod-patched
      refl
