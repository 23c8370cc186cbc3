-- ===== src/Webhook/Mutator/Truststore.antt =====
-- What the containers of a JVM pod have, after `addJVMSecretAndEnv` and after the step for Python.
use cain.Prelude.{
  arith, true, ◌≡◌, ap, append-nil, sym, subst, inl, inr, Bool-cases, List, [], ◌∷◌, ◌++◌, map,
  append_assoc, All, Member, first, Member-append_left, Member-append_right,
}
use cain.Go.Text.{GoString, text}
use cain.Go.Format.{sprintf}
use cain.Go.FilePath.{join_paths}
use cain.Kube.Meta.{ObjectMeta}
use cain.Kube.Pods.{VolumeMount, EnvVar, Container, Pod}
use cain.Metadata.{jvm_path, truststore_password, is_python_enabled}
use cain.Webhook.Mutator.State.{Mutator, ca_truststore_volume_name}
use cain.Webhook.Mutator.Volumes.{mount}
use cain.Webhook.Mutator.Env.{add_jvm_env, truststore_env, with_jvm, add_python_vars}
use cain.Webhook.Mutator.JvmEnv.{extended, add_jvm_env_decided}
use cain.Webhook.Mutator.Python.{python_step, bundle_of, add_python_env_lem}

-- A variable of the name has a value that ends in the given options.
abbrev pub HasOptions : GoString → GoString → Container → Type 0
HasOptions name options c =
    (old : GoString) × Member (record { name = name; value = old ++ options }) c.env

-- The options that name the file in the directory, and its password.
abbrev pub truststore_options : GoString → GoString → GoString → GoString
truststore_options dir file password =
    text "-Djavax.net.ssl.trustStore="
    ++ (join_paths (dir ∷ file ∷ []) ++ (text " -Djavax.net.ssl.password=" ++ password))

truststore_options_lem :
    (path : GoString × GoString) (password : GoString)
    → truststore_env path password ≡ truststore_options path.0 path.1 password
unfolding truststore_env sprintf text
truststore_options_lem path password =
    ap
      (λ (s : GoString).
        text "-Djavax.net.ssl.trustStore="
        ++ (join_paths (path.0 ∷ path.1 ∷ []) ++ (text " -Djavax.net.ssl.password=" ++ s)))
      (append-nil password)

-- The mount of the truststore, in the directory of its path.
abbrev pub truststore_mount : GoString × GoString → VolumeMount
truststore_mount path = record {
  name = ca_truststore_volume_name;
  mount_path = path.0;
  read_only = true;
}

-- The container mounts the truststore, and its JVM variable ends in the options for it.
pub record UsesTruststore (mut : Mutator) (obj : ObjectMeta) (c : Container) : Type 0 where
  pub mounted : Member (truststore_mount (jvm_path mut.extractor obj)) c.volume_mounts
  pub options :
      HasOptions mut.jvm_env_variable
        (truststore_options
          (jvm_path mut.extractor obj).0
          (jvm_path mut.extractor obj).1
          (truststore_password mut.extractor obj))
        c

add_jvm_env-mounts :
    (name value : GoString) (c : Container)
    → (add_jvm_env name value c).volume_mounts ≡ c.volume_mounts
unfolding add_jvm_env
add_jvm_env-mounts name value c = ground arith

variable_path :
    {a b v w : GoString}
    → a ≡ b
    → v ≡ w
    → ◌≡◌ {A = EnvVar} (record { name = a; value = v }) (record { name = b; value = w })
variable_path e f = cc (e, f)

add_jvm_env-HasOptions :
    (name value : GoString) (c : Container) → HasOptions name value (add_jvm_env name value c)
add_jvm_env-HasOptions name value c = elim (add_jvm_env_decided name value c) [
  | inl (unset, added) ↦ ([], rw added (Member-append_right c.env first))
  | inr (env', i, longer) ↦
      let same = append_assoc i.variable.value (b' ' ∷ []) value in
      let named = i.named in
      let is_variable : extended value i.variable
          ≡ record { name = name; value = (i.variable.value ++ b' ' ∷ []) ++ value } =
        variable_path named (sym same) in
      (
        i.variable.value ++ b' ' ∷ [],
        rw (longer, i.result)
            (Member-append_right i.before (
              subst (λ (w : EnvVar). Member w (extended value i.variable ∷ i.after)) is_variable
                first)),
      )
]

-- Every container, after the step for the JVM.
All-UsesTruststore :
    (mut : Mutator) (obj : ObjectMeta) (cs : List Container)
    → All (UsesTruststore mut obj) (
        map
          (λ (c : Container).
            add_jvm_env mut.jvm_env_variable
              (truststore_env (jvm_path mut.extractor obj) (truststore_password mut.extractor obj))
              (mount (truststore_mount (jvm_path mut.extractor obj)) c))
          cs)
All-UsesTruststore mut obj [] = tt
All-UsesTruststore mut obj (c ∷ cs) = (
  record {
    mounted = rw add_jvm_env-mounts (unfold mount in Member-append_right c.volume_mounts first);
    options =
        subst
          (λ (options : GoString). HasOptions mut.jvm_env_variable options (
            add_jvm_env mut.jvm_env_variable
              (truststore_env (jvm_path mut.extractor obj) (truststore_password mut.extractor obj))
              (mount (truststore_mount (jvm_path mut.extractor obj)) c)))
          (truststore_options_lem (jvm_path mut.extractor obj)
            (truststore_password mut.extractor obj))
          (add_jvm_env-HasOptions _ _ (mount (truststore_mount (jvm_path mut.extractor obj)) c));
  },
  All-UsesTruststore mut obj cs,
)

pub with_jvm-UsesTruststore :
    (mut : Mutator) (p : Pod) (owner : GoString)
    → All (UsesTruststore mut p.meta) (with_jvm mut p owner).containers
unfolding with_jvm
with_jvm-UsesTruststore mut p owner = All-UsesTruststore mut p.meta p.containers

-- The step for Python keeps it.
add_python_vars-UsesTruststore :
    (mut : Mutator) (obj : ObjectMeta) (path : GoString) (cs : List Container)
    → All (UsesTruststore mut obj) cs
    → All (UsesTruststore mut obj) (map (add_python_vars path) cs)
unfolding add_python_vars
add_python_vars-UsesTruststore mut obj path [] h = tt
add_python_vars-UsesTruststore mut obj path (c ∷ cs) (u, more) = (
  record {
    mounted = u.mounted;
    options = (u.options.0, Member-append_left _ (Member-append_left _ u.options.1));
  },
  add_python_vars-UsesTruststore mut obj path cs more,
)

pub python_step-UsesTruststore :
    (mut : Mutator) (obj : ObjectMeta) (p : Pod)
    → All (UsesTruststore mut obj) p.containers
    → All (UsesTruststore mut obj) (python_step mut p).containers
unfolding python_step
python_step-UsesTruststore mut obj p h =
    elim (Bool-cases (is_python_enabled mut.extractor p.meta)) [
      | inr off ↦ rw off h
      | inl on ↦
          rw (on, add_python_env_lem mut p)
            (add_python_vars-UsesTruststore mut obj (bundle_of mut.extractor p.meta) p.containers h)
    ]
