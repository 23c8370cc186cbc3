-- ===== src/Webhook/Mutator/Bundle.antt =====
-- What a successful injection gives a pod: the volumes, the init container, and the bundle mounted in
-- every container.
use cain.Prelude.{
  ℕ, ◌≡◌, refl, sym, ap, subst, ◌∙◌, inl, inr, false, some, List, [], ◌∷◌, ◌++◌, map, Option, some,
  arith, All, Member, first, Member-append_left, Member-append_right, IsPrefix, Each,
}
use cain.Go.Text.{GoString}
use cain.Kube.Meta.{ObjectMeta}
use cain.Kube.Pods.{VolumeMount, Container, Pod, Volume, SecretProjection}
use cain.Kube.Client.{Client}
use cain.Metadata.{secret_volume_name, ca_volume_name}
use cain.Webhook.Mutator.State.{Mutator}
use cain.Webhook.Mutator.Volumes.{mount, with_ca_volumes}
use cain.Webhook.Mutator.Env.{with_jvm}
use cain.Webhook.Mutator.SecretVolumes.{volumes_with, get_ca_secret_volumes_decided}
use cain.Webhook.Mutator.Expected.{
  expected_paths, expected_init, expected_init_lem, family_paths-family,
}
use cain.Webhook.Mutator.Extends.{Extends}
use cain.Webhook.Mutator.Outcomes.{CaAdded}
use cain.Webhook.Mutator.Python.{python_step, add_python_env_lem}
use cain.Webhook.Review.{AdmissionReview}
use cain.Webhook.Mutator.Handler.{MutatorResult, mutate}
use cain.Webhook.Mutator.Patched.{mutate-Patched}
use cain.Go.Errors.{Error, ok}
use cain.Go.Exec.{returns}
use cain.Kube.Pods.{Object, a_pod}
use cain.Webhook.Mutator.Injection.{JvmStep, Injected, later_steps_extend}

-- The mount of the bundle in the containers.
abbrev pub bundle_mount : Mutator → ObjectMeta → VolumeMount
bundle_mount mut obj = record {
  name = ca_volume_name mut.extractor obj;
  mount_path = (expected_paths mut obj).complete_ca_mount_path;
  read_only = false;
}

abbrev pub Mounts : VolumeMount → Container → Type 0
Mounts m c = Member m c.volume_mounts

All-map-mount : (m : VolumeMount) (cs : List Container) → All (Mounts m) (map (mount m) cs)
unfolding mount
All-map-mount m [] = tt
All-map-mount m (c ∷ cs) = (Member-append_right c.volume_mounts first, All-map-mount m cs)

-- Extending containers keeps their mounts.
All-Mounts-Extends :
    (m : VolumeMount) (cs ds : List Container)
    → Each Extends cs ds
    → All (Mounts m) cs
    → All (Mounts m) ds
All-Mounts-Extends m [] [] e h = tt
All-Mounts-Extends m [] (d ∷ ds) e h = absurd e
All-Mounts-Extends m (c ∷ cs) [] e h = tt
All-Mounts-Extends m (c ∷ cs) (d ∷ ds) e h =
    let (more, longer) = e.0.mounts in
    (rw longer (Member-append_left more h.0), All-Mounts-Extends m cs ds e.1 h.1)

init_of_python_step :
    (mut : Mutator) (p : Pod) → (python_step mut p).init_containers ≡ p.init_containers
unfolding python_step
init_of_python_step mut p = ground (arith, add_python_env_lem mut p)

-- `q` is `pod` with the bundle: the volumes, the init container in front, and the mounts.
pub record HasBundle (mut : Mutator) (pod q : Pod) : Type 0 where
  pub secret_sources : List SecretProjection
  pub volumes :
      IsPrefix
        (pod.volumes
          ++ volumes_with mut
              (secret_volume_name mut.extractor pod.meta)
              (ca_volume_name mut.extractor pod.meta)
              secret_sources)
        q.volumes
  pub old_init : List Container
  pub init_containers : q.init_containers ≡ expected_init mut pod.meta ∷ old_init
  pub old_init_mounts : All (Mounts (bundle_mount mut pod.meta)) old_init
  pub containers : All (Mounts (bundle_mount mut pod.meta)) q.containers

module _ {S : Type 0} (client : Client S) (fuel : ℕ) (mut : Mutator) (namespace : GoString) where
  init_of_JvmStep :
      (p : Pod) (u t : S) (q : Pod)
      → JvmStep client fuel mut namespace p u t q
      → q.init_containers ≡ p.init_containers
  init_of_JvmStep p u t q (inl (off, same, st)) = ap (λ (x : Pod). x.init_containers) same
  init_of_JvmStep p u t q (inr (on, added)) =
      ap (λ (x : Pod). x.init_containers) added.result ∙ (unfold with_jvm in refl)

  -- The init containers after an injection.
  pub init_of_Injected :
      (pod : Pod) (s t : S) (q : Pod)
      → Injected client fuel mut namespace pod s t q
      → q.init_containers
        ≡ expected_init mut pod.meta ∷ map (mount (bundle_mount mut pod.meta)) pod.init_containers
  init_of_Injected pod s t q i =
      ap (λ (x : Pod). x.init_containers) i.result
      ∙ init_of_python_step mut i.jvm
      ∙ init_of_JvmStep i.with_ca i.middle t i.jvm i.jvm_step
      ∙ ap (λ (x : Pod). x.init_containers) i.ca_step.result
      ∙ (unfold with_ca_volumes in
          rw (family_paths-family mut pod.meta, expected_init_lem mut pod.meta))

  -- What every container of an injected pod has.
  containers_of_ca_step :
      (pod : Pod) (s t : S) (q : Pod)
      → Injected client fuel mut namespace pod s t q
      → All (Mounts (bundle_mount mut pod.meta)) q.containers
  containers_of_ca_step pod s t q i =
      All-Mounts-Extends (bundle_mount mut pod.meta) i.with_ca.containers q.containers
        (later_steps_extend client fuel mut namespace pod s t q i).containers
        (subst (λ (x : Pod). All (Mounts (bundle_mount mut pod.meta)) x.containers)
          (sym i.ca_step.result)
          (unfold with_ca_volumes in
            rw (family_paths-family mut pod.meta)
              (All-map-mount (bundle_mount mut pod.meta) pod.containers)))

  pub CaAdded-volumes :
      (pod : Pod) (s t : S) (secret_volume ca_volume : GoString) (q : Pod)
      (a : CaAdded client fuel mut pod namespace s t secret_volume ca_volume q)
      → (sources : List SecretProjection) × (a.volumes
          ≡ volumes_with mut secret_volume ca_volume sources)
  CaAdded-volumes pod s t secret_volume ca_volume q a =
      let made = a.made in
      elim (get_ca_secret_volumes_decided mut pod a.owner.name secret_volume ca_volume) [
        | inl (pairs, (defaults, extras, of_keys, are, distinct, h)) ↦
            (defaults ++ extras, cc (made, h))
        | inr (lack, (why, h)) ↦ absurd (cc (made, h))
      ]

  pub volumes_of_Injected :
      (pod : Pod) (s t : S) (q : Pod) (i : Injected client fuel mut namespace pod s t q)
      → IsPrefix (pod.volumes ++ i.ca_step.volumes) q.volumes
  volumes_of_Injected pod s t q i =
      subst (λ (vs : List Volume). IsPrefix vs q.volumes)
        (ap (λ (x : Pod). x.volumes) i.ca_step.result ∙ (unfold with_ca_volumes in refl))
        (later_steps_extend client fuel mut namespace pod s t q i).volumes

  pub HasBundle-Injected :
      (pod : Pod) (s t : S) (q : Pod)
      → Injected client fuel mut namespace pod s t q
      → HasBundle mut pod q
  HasBundle-Injected pod s t q i =
      let (sources, shape) = CaAdded-volumes pod s i.middle _ _ i.with_ca i.ca_step in
      record {
        secret_sources = sources;
        volumes =
            subst (λ (vs : List Volume). IsPrefix (pod.volumes ++ vs) q.volumes) shape
              (volumes_of_Injected pod s t q i);
        old_init = map (mount (bundle_mount mut pod.meta)) pod.init_containers;
        init_containers = init_of_Injected pod s t q i;
        old_init_mounts = All-map-mount (bundle_mount mut pod.meta) pod.init_containers;
        containers = containers_of_ca_step pod s t q i;
      }

-- If a call patches an object to `q`, the object is a pod, and `q` has the bundle: the CA volume and the
-- empty one stand behind the pod's own volumes; the init container that builds the bundle is the first
-- one, with the image and the directory of the family that the annotation names (RedHat's for
-- `redhat`, else Debian's), the configured resources, the CA volume mounted to read in that directory
-- and the empty one to write in `/tmp/ca-certs/`; and every container and every other init container of `q` mounts the
-- bundle in the directory of the family.
pub mutate_bundle :
    {S : Type 0} (client : Client S) (fuel : ℕ) (mut : Mutator) (done : Option Error)
    (rev : AdmissionReview) (obj obj' : Object) (r : MutatorResult) (s t : S) (q : Pod)
    → mutate client fuel mut done rev obj s ≡ returns ((obj', ok r), t)
    → r.mutated_object ≡ some q
    → (pod : Pod) × (obj ≡ a_pod pod) × HasBundle mut pod q
mutate_bundle client fuel mut done rev obj obj' r s t q h patch =
    let p = mutate-Patched client fuel mut done rev obj obj' r s t q h patch in
    (p.pod, p.is_pod, HasBundle-Injected client fuel mut rev.namespace p.pod s t q p.injected)
