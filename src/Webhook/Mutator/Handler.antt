-- ===== src/Webhook/Mutator/Handler.antt =====
-- `Mutate` and `injectCA`.
use cain.Prelude.{ℕ, Bool, true, false, Option, none, some, List, [], ◌∷◌, if◌then◌else◌}
use cain.Go.Text.{GoString, text, str_eq}
use cain.Go.Errors.{Error, Result, errorf, ok, err}
use cain.Go.Exec.{Go, pure, ◌>>=◌}
use cain.Kube.Pods.{Container, Pod, Object, a_pod, other, object_meta}
use cain.Kube.Client.{Client}
use cain.Metadata.{is_injection_enabled, is_python_enabled, secret_volume_name, ca_volume_name}
use cain.Webhook.Review.{AdmissionReview}
use cain.Webhook.Mutator.State.{Mutator, ca_init_container_name}
use cain.Webhook.Mutator.Volumes.{add_ca_secret_volumes}
use cain.Webhook.Mutator.Env.{should_add_jvm_ca, add_jvm_secret_and_env, add_python_env}

pub record MutatorResult : Type 0 where
  pub mutated_object : Option Pod
  pub warnings : List GoString

abbrev pub no_change : MutatorResult
no_change = record { mutated_object = none; warnings = [] }

abbrev pub warning : GoString → MutatorResult
warning w = record { mutated_object = none; warnings = w ∷ [] }

-- The loop that looks for the init container.
unfoldable pub has_ca_init_container : List Container → Bool
has_ca_init_container [] = false
has_ca_init_container (c ∷ cs) =
    if str_eq c.name ca_init_container_name then true else has_ca_init_container cs

-- The last step of `injectCA`.
unfoldable pub inject_python : Mutator → Pod → Pod × MutatorResult
inject_python mut pod =
    if is_python_enabled mut.extractor pod.meta
    then (let (pod', failed) = add_python_env mut pod in
        elim failed [
          | some e ↦ (pod', warning (text "adding Python ENV failed"))
          | none ↦ (pod', record { mutated_object = some pod'; warnings = [] })
        ])
    else (pod, record { mutated_object = some pod; warnings = [] })

-- Both return the object as the call leaves it, and the result.
module _ {S : Type 0} (client : Client S) (fuel : ℕ) (mut : Mutator) where
  unfoldable pub inject_jvm : Pod → GoString → Go S (Pod × MutatorResult)
  inject_jvm pod namespace =
      if should_add_jvm_ca mut pod
      then (do
        (pod', failed) ← add_jvm_secret_and_env client fuel mut pod namespace
        elim failed [
          | some e ↦ pure (pod', warning (text "adding JVM secret and ENV failed"))
          | none ↦ pure (inject_python mut pod')
        ])
      else pure (inject_python mut pod)

  unfoldable pub inject_ca : Pod → GoString → Go S (Pod × MutatorResult)
  inject_ca pod namespace =
      if has_ca_init_container pod.init_containers
      then pure (pod, warning (text "Pod already mutated for CA injection"))
      else (do
        (pod', failed) ←
            add_ca_secret_volumes client fuel mut pod namespace
              (secret_volume_name mut.extractor pod.meta) (ca_volume_name mut.extractor pod.meta)
        elim failed [
          | some e ↦ pure (pod', warning (text "adding CA secret volumes failed"))
          | none ↦ inject_jvm pod' namespace
        ])

  -- `done` is `ctx.Err()` where the context is done.
  unfoldable pub mutate :
      Option Error → AdmissionReview → Object → Go S (Object × Result MutatorResult)
  mutate (some done) adm_rev obj =
      pure (obj, err (errorf (text "context has been cancelled, %w") [] done))
  mutate none adm_rev obj =
      if is_injection_enabled mut.extractor (object_meta obj)
      then (if str_eq adm_rev.namespace (text "kube-system")
          then pure (obj, ok no_change)
          else elim obj [
            | other m ↦ pure (other m, ok (warning (text "Provided resource was not a Pod")))
            | a_pod pod ↦ do
              (pod', result) ← inject_ca pod adm_rev.namespace
              pure (a_pod pod', ok result)
          ])
      else pure (obj, ok no_change)
