-- ===== src/Webhook/Mutator/Extends.antt =====
-- The mutating webhook only adds to a pod: the relation between a pod and one with more in it, and
-- each injection as an instance of it.
use cain.Prelude.{
  ◌≡◌, refl, ap, sym, ◌∙◌, Option, none, some, List, [], ◌∷◌, ◌++◌, map, inl, inr, append_assoc,
  IsPrefix, IsPrefix-refl, IsPrefix-append, IsPrefix-trans, Each, Each-refl, Each-map, Each-trans,
  Each-split, subst,
}
use cain.Go.Text.{GoString}
use cain.Kube.Pods.{Volume, VolumeMount, EnvVar, Container, Pod}
use cain.Metadata.{family}
use cain.Webhook.Mutator.State.{Mutator}
use cain.Webhook.Mutator.Volumes.{mount, with_ca_volumes}
use cain.Webhook.Mutator.JvmEnv.{add_jvm_env_decided}
use cain.Webhook.Mutator.EnvExtends.{
  EnvExtends, EnvExtends-refl, EnvExtends-append, EnvExtends-trans, EnvExtends-IsExtended,
}
use cain.Webhook.Mutator.Env.{add_jvm_env, with_jvm, add_python_vars, add_python_env, certs_path}

-- `d` is `c` with more mounts, more variables at the end, and perhaps more at the end of the values
-- of its variables.
pub record Extends (c d : Container) : Type 0 where
  pub name : d.name ≡ c.name
  pub image : d.image ≡ c.image
  pub resources : d.resources ≡ c.resources
  pub mounts : IsPrefix c.volume_mounts d.volume_mounts
  pub variables : EnvExtends c.env d.env

pub Extends-refl : (c : Container) → Extends c c
Extends-refl c = record {
  name = refl;
  image = refl;
  resources = refl;
  mounts = IsPrefix-refl c.volume_mounts;
  variables = EnvExtends-refl c.env;
}

pub Extends-trans : (c d e : Container) → Extends c d → Extends d e → Extends c e
Extends-trans c d e p q = record {
  name = q.name ∙ p.name;
  image = q.image ∙ p.image;
  resources = q.resources ∙ p.resources;
  mounts = IsPrefix-trans c.volume_mounts d.volume_mounts e.volume_mounts p.mounts q.mounts;
  variables = EnvExtends-trans c.env d.env e.env p.variables q.variables;
}

-- `q` is `p` with more volumes at the end, more init containers in front, and its containers
-- extended; the metadata is the same.
pub record PodExtends (p q : Pod) : Type 0 where
  pub meta : q.meta ≡ p.meta
  pub volumes : IsPrefix p.volumes q.volumes
  pub added_init : List Container
  pub old_init : List Container
  pub init_containers : q.init_containers ≡ added_init ++ old_init
  pub old_init_extends : Each Extends p.init_containers old_init
  pub containers : Each Extends p.containers q.containers

pub PodExtends-refl : (p : Pod) → PodExtends p p
PodExtends-refl p = record {
  meta = refl;
  volumes = IsPrefix-refl p.volumes;
  added_init = [];
  old_init = p.init_containers;
  init_containers = refl;
  old_init_extends = Each-refl Extends Extends-refl p.init_containers;
  containers = Each-refl Extends Extends-refl p.containers;
}

Extends-mount : (m : VolumeMount) (c : Container) → Extends c (mount m c)
unfolding mount
Extends-mount m c = record {
  name = refl;
  image = refl;
  resources = refl;
  mounts = IsPrefix-append c.volume_mounts (m ∷ []);
  variables = EnvExtends-refl c.env;
}

-- A container with an extended environment.
Extends-env :
    (c : Container) (env' : List EnvVar)
    → EnvExtends c.env env'
    → Extends c (record c { env = env' })
Extends-env c env' e = record {
  name = refl;
  image = refl;
  resources = refl;
  mounts = IsPrefix-refl c.volume_mounts;
  variables = e;
}

Extends-add_jvm_env : (name value : GoString) (c : Container) → Extends c (add_jvm_env name value c)
Extends-add_jvm_env name value c = elim (add_jvm_env_decided name value c) [
  | inl (unset, added) ↦
      rw added
        (Extends-env c _ (EnvExtends-append c.env (record { name = name; value = value } ∷ [])))
  | inr (env', i, longer) ↦
      rw longer (Extends-env c env' (EnvExtends-IsExtended name value c.env env' i))
]

Extends-add_python_vars : (path : GoString) (c : Container) → Extends c (add_python_vars path c)
unfolding add_python_vars
Extends-add_python_vars path c = record {
  name = refl;
  image = refl;
  resources = refl;
  mounts = IsPrefix-refl c.volume_mounts;
  variables = rw append_assoc (EnvExtends-append c.env _);
}

-- Each injection extends the pod.
pub PodExtends-with_ca_volumes :
    (mut : Mutator) (pod : Pod) (volumes : List Volume) (secret_volume ca_volume : GoString)
    → PodExtends pod (with_ca_volumes mut pod volumes secret_volume ca_volume)
unfolding with_ca_volumes
PodExtends-with_ca_volumes mut pod volumes secret_volume ca_volume = record {
  meta = refl;
  volumes = IsPrefix-append pod.volumes volumes;
  added_init = _ ∷ [];
  old_init = map (mount _) pod.init_containers;
  init_containers = refl;
  old_init_extends = Each-map Extends (mount _) (Extends-mount _) pod.init_containers;
  containers = Each-map Extends (mount _) (Extends-mount _) pod.containers;
}

pub PodExtends-with_jvm :
    (mut : Mutator) (pod : Pod) (owner : GoString) → PodExtends pod (with_jvm mut pod owner)
unfolding with_jvm
PodExtends-with_jvm mut pod owner = record {
  meta = refl;
  volumes = IsPrefix-append pod.volumes (_ ∷ []);
  added_init = [];
  old_init = pod.init_containers;
  init_containers = refl;
  old_init_extends = Each-refl Extends Extends-refl pod.init_containers;
  containers =
      Each-map Extends _
        (λ c.
          Extends-trans c (mount _ c) _ (Extends-mount _ c) (Extends-add_jvm_env _ _ (mount _ c)))
        pod.containers;
}

PodExtends-containers :
    (f : Container → Container)
    → ((c : Container) → Extends c (f c))
    → (pod : Pod) → PodExtends pod (record pod { containers = map f pod.containers })
PodExtends-containers f extends pod = record {
  meta = refl;
  volumes = IsPrefix-refl pod.volumes;
  added_init = [];
  old_init = pod.init_containers;
  init_containers = refl;
  old_init_extends = Each-refl Extends Extends-refl pod.init_containers;
  containers = Each-map Extends f extends pod.containers;
}

python_env_extends :
    (mut : Mutator) (pod : Pod) (path : Option GoString)
    → certs_path (family mut.extractor pod.meta) ≡ path
    → PodExtends pod (add_python_env mut pod).0
unfolding add_python_env
python_env_extends mut pod none e = rw (e, add_python_env) (PodExtends-refl pod)
python_env_extends mut pod (some path) e =
    rw (e, add_python_env)
      (PodExtends-containers (add_python_vars path) (Extends-add_python_vars path) pod)

pub PodExtends-add_python_env :
    (mut : Mutator) (pod : Pod) → PodExtends pod (add_python_env mut pod).0
PodExtends-add_python_env mut pod =
    python_env_extends mut pod (certs_path (family mut.extractor pod.meta)) refl

pub PodExtends-trans : (p q r : Pod) → PodExtends p q → PodExtends q r → PodExtends p r
PodExtends-trans p q r a b =
    let (us, vs, split, front, old) = Each-split Extends a.added_init a.old_init b.old_init (
      subst (λ (l : List Container). Each Extends l b.old_init) a.init_containers
        b.old_init_extends) in
    record {
      meta = b.meta ∙ a.meta;
      volumes = IsPrefix-trans p.volumes q.volumes r.volumes a.volumes b.volumes;
      added_init = b.added_init ++ us;
      old_init = vs;
      init_containers =
          b.init_containers
          ∙ ap (λ (l : List Container). b.added_init ++ l) split
          ∙ sym (append_assoc b.added_init us vs);
      old_init_extends =
          Each-trans Extends Extends-trans p.init_containers a.old_init vs a.old_init_extends old;
      containers =
          Each-trans Extends Extends-trans p.containers q.containers r.containers a.containers
            b.containers;
    }
