-- ===== src/Webhook/Mutator/Python.antt =====
-- `addPythonEnv` cannot fail, and which bundle the variables name.
use cain.Prelude.{
  ◌≡◌, refl, ◌⊎◌, none, some, List, [], ◌∷◌, ◌++◌, append_assoc, arith, map, if◌then◌else◌,
}
use cain.Go.Text.{GoString, text, str_eq}
use cain.Go.Maps.{index}
use cain.Kube.Meta.{ObjectMeta}
use cain.Kube.Pods.{Container, Pod}
use cain.Metadata.{Extractor, family, debian_family, redhat_family, is_python_enabled}
use cain.Webhook.Mutator.State.{Mutator}
use cain.Webhook.Mutator.Env.{certs_path, add_python_vars, add_python_env}
use cain.Webhook.Mutator.Handler.{inject_python}

abbrev pub debian_bundle : GoString
debian_bundle = text "/etc/ssl/certs/ca-certificates.crt"

abbrev pub redhat_bundle : GoString
redhat_bundle = text "/etc/pki/ca-trust/extracted/ca-bundle.trust.crt"

pub family_recognised :
    (e : Extractor) (obj : ObjectMeta)
    → (family e obj ≡ debian_family) ⊎ (family e obj ≡ redhat_family)
unfolding family
family_recognised e obj = ground arith

certs_path_debian : certs_path debian_family ≡ some debian_bundle
unfolding certs_path text str_eq cain.Go.FilePath.join_paths
certs_path_debian = refl

certs_path_redhat : certs_path redhat_family ≡ some redhat_bundle
unfolding certs_path text str_eq cain.Go.FilePath.join_paths
certs_path_redhat = refl

-- The bundle of an object: RedHat's exactly if the family annotation is `redhat`.
abbrev pub bundle_of : Extractor → ObjectMeta → GoString
bundle_of e obj = elim (index obj.annotations e.family_annotation) [
  | none ↦ debian_bundle
  | some value ↦ if str_eq value (text "redhat") then redhat_bundle else debian_bundle
]

pub certs_path-family :
    (e : Extractor) (obj : ObjectMeta) → certs_path (family e obj) ≡ some (bundle_of e obj)
unfolding family
certs_path-family e obj = ground (arith, certs_path_debian, certs_path_redhat)

pub add_python_env_lem :
    (mut : Mutator) (pod : Pod)
    → add_python_env mut pod ≡ (
      record pod {
        containers = map (add_python_vars (bundle_of mut.extractor pod.meta)) pod.containers;
      },
      none,
    )
unfolding add_python_env
add_python_env_lem mut pod = rw (certs_path-family mut.extractor pod.meta, add_python_env)

-- The container with both variables at the end of its environment.
abbrev pub with_bundle : GoString → Container → Container
with_bundle bundle c = record c {
  env =
      c.env
      ++ record { name = text "REQUESTS_CA_BUNDLE"; value = bundle }
        ∷ record { name = text "SSL_CERT_FILE"; value = bundle }
        ∷ [];
}

with_bundle_all :
    (bundle : GoString) (cs : List Container)
    → map (add_python_vars bundle) cs ≡ map (with_bundle bundle) cs
unfolding add_python_vars
with_bundle_all bundle [] = refl
with_bundle_all bundle (c ∷ cs) = simp (with_bundle_all bundle cs, append_assoc)

-- Whatever the family annotation, `addPythonEnv` gives the pod `REQUESTS_CA_BUNDLE` and `SSL_CERT_FILE` at the end of
-- the environment of each container, both with the bundle of its family, and never returns an error.
pub add_python_env_total :
    (mut : Mutator) (pod : Pod)
    → add_python_env mut pod ≡ (
      record pod {
        containers = map (with_bundle (bundle_of mut.extractor pod.meta)) pod.containers;
      },
      none,
    )
add_python_env_total mut pod =
    rw (
      add_python_env_lem mut pod,
      with_bundle_all (bundle_of mut.extractor pod.meta) pod.containers,
    )

-- The pod after the Python step of the injection.
unfoldable pub python_step : Mutator → Pod → Pod
python_step mut pod =
    if is_python_enabled mut.extractor pod.meta then (add_python_env mut pod).0 else pod

pub inject_python_total :
    (mut : Mutator) (pod : Pod)
    → inject_python mut pod
      ≡ (python_step mut pod, record { mutated_object = some (python_step mut pod); warnings = [] })
unfolding inject_python python_step
inject_python_total mut pod = ground (arith, add_python_env_lem mut pod)
