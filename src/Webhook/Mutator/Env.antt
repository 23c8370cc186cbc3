-- ===== src/Webhook/Mutator/Env.antt =====
-- `shouldAddJVMCA`, `addJVMSecretAndEnv` and `addPythonEnv`: what the containers of JVM and Python
-- pods get. Each returns the pod, which the code changes in place.
use cain.Prelude.{ℕ, Bool, true, false, Option, none, some, List, [], ◌∷◌, ◌++◌, map, if◌then◌else◌}
use cain.Go.Text.{GoString, text, str_eq}
use cain.Go.Format.{sprintf}
use cain.Go.FilePath.{join_paths}
use cain.Go.Errors.{Error, errors_new, errorf, ok, err}
use cain.Go.Exec.{Go, pure, panic, ◌>>=◌}
use cain.Kube.Pods.{secret, Volume, VolumeMount, EnvVar, Container, Pod}
use cain.Kube.Client.{Client}
use cain.Metadata.{
  debian_family, redhat_family, family, is_jvm_enabled, jvm_path, truststore_password,
}
use cain.Certificates.Names.{secret_name}
use cain.Webhook.Owner.{root_owner}
use cain.Webhook.Mutator.State.{
  Mutator, ca_truststore_volume_name, debian_complete_ca_volume_mount_path, debian_complete_ca_name,
  redhat_complete_ca_volume_mount_path, redhat_complete_ca_name, requests_ca_bundle_env_var,
  ssl_cert_file_env_var,
}
use cain.Webhook.Mutator.Volumes.{mount}

abbrev pub err_unrecognised_family : Error
err_unrecognised_family = errors_new (text "unrecognised family")

-- The loop over the volumes, `add` being `addJVMCA` so far.
unfoldable pub no_truststore_volume : Bool → List Volume → Bool
no_truststore_volume add [] = add
no_truststore_volume add (v ∷ volumes) =
    no_truststore_volume (if str_eq v.name ca_truststore_volume_name then false else add) volumes

unfoldable pub should_add_jvm_ca : Mutator → Pod → Bool
unfolding no_truststore_volume
should_add_jvm_ca mut pod =
    if is_jvm_enabled mut.extractor pod.meta then no_truststore_volume true pod.volumes else false

-- The loop over the variables of a container, which breaks at the first one of the name; the
-- second value is `envSet`.
unfoldable pub extend_env : GoString → GoString → List EnvVar → List EnvVar × Bool
extend_env name value [] = ([], false)
extend_env name value (v ∷ env) =
    let (env', env_set) = extend_env name value env in
    if str_eq v.name name
    then (record v { value = sprintf (text "%s %s") (v.value ∷ value ∷ []) } ∷ env, true)
    else (v ∷ env', env_set)

unfoldable pub add_jvm_env : GoString → GoString → Container → Container
unfolding extend_env
add_jvm_env name value c =
    let (env, env_set) = extend_env name value c.env in
    if env_set
    then record c { env = env }
    else record c { env = env ++ record { name = name; value = value } ∷ [] }

-- The value of the variable for a truststore of that directory, file and password.
unfoldable pub truststore_env : GoString × GoString → GoString → GoString
truststore_env path password =
    sprintf (text "-Djavax.net.ssl.trustStore=%s -Djavax.net.ssl.password=%s")
      (join_paths (path.0 ∷ path.1 ∷ []) ∷ password ∷ [])

unfoldable pub with_jvm : Mutator → Pod → GoString → Pod
unfolding add_jvm_env mount truststore_env
with_jvm mut pod owner_name =
    let path = jvm_path mut.extractor pod.meta in
    let value = truststore_env path (truststore_password mut.extractor pod.meta) in
    let vol : Volume = record {
      name = ca_truststore_volume_name;
      source =
          secret (secret_name owner_name) mut.default_mode
            (record { key = path.1; path = path.1 } ∷ []);
    } in
    let vol_mount : VolumeMount = record {
      name = ca_truststore_volume_name;
      mount_path = path.0;
      read_only = true;
    } in
    record pod {
      volumes = pod.volumes ++ vol ∷ [];
      containers =
          map (λ c. add_jvm_env mut.jvm_env_variable value (mount vol_mount c)) pod.containers;
    }

module _ {S : Type 0} (client : Client S) (fuel : ℕ) where
  unfoldable pub add_jvm_secret_and_env : Mutator → Pod → GoString → Go S (Pod × Option Error)
  add_jvm_secret_and_env mut pod namespace = do
    owner ← root_owner client namespace fuel pod.meta none
    elim owner [
      | err e ↦ pure (pod, some (errorf (text "getting root object name: %w") [] e))
      | ok none ↦ panic (text "nil pointer dereference")
      | ok (some owner_ref) ↦ pure (with_jvm mut pod owner_ref.name, none)
    ]

-- The switch over the family; `none` is its default case.
unfoldable pub certs_path : GoString → Option GoString
certs_path f =
    if str_eq f debian_family
    then some (join_paths (debian_complete_ca_volume_mount_path ∷ debian_complete_ca_name ∷ []))
    else if str_eq f redhat_family
    then some (join_paths (redhat_complete_ca_volume_mount_path ∷ redhat_complete_ca_name ∷ []))
    else none

unfoldable pub add_python_vars : GoString → Container → Container
add_python_vars path c = record c {
  env =
      (c.env ++ record { name = requests_ca_bundle_env_var; value = path } ∷ [])
      ++ record { name = ssl_cert_file_env_var; value = path } ∷ [];
}

unfoldable pub add_python_env : Mutator → Pod → Pod × Option Error
unfolding certs_path add_python_vars
add_python_env mut pod = elim (certs_path (family mut.extractor pod.meta)) [
  | none ↦ (pod, some err_unrecognised_family)
  | some path ↦ (record pod { containers = map (add_python_vars path) pod.containers }, none)
]
