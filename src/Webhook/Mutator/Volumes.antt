-- ===== src/Webhook/Mutator/Volumes.antt =====
-- `getCASecretVolumes` and `addCASecretVolumes`: the volumes of the CA secrets, the init container
-- that builds the bundle, and the mounts of the bundle.
use cain.Prelude.{ℕ, true, false, Option, none, some, List, [], ◌∷◌, ◌++◌, map, if◌then◌else◌}
use cain.Go.Text.{GoString, text, str_eq}
use cain.Go.Errors.{Error, errorf, ok, err}
use cain.Go.Exec.{Go, Exec, returns, panics, diverges, pure, panic, ◌>>=◌}
use cain.Kube.Pods.{projected, empty_dir, Volume, VolumeMount, Container, Pod}
use cain.Kube.Client.{Client}
use cain.Metadata.{debian_family, redhat_family, family}
use cain.Webhook.Config.{to_k8s}
use cain.Webhook.Owner.{root_owner}
use cain.Webhook.Mutator.Sources.{projected_sources}
use cain.Webhook.Mutator.State.{
  Mutator, ca_init_container_name, update_ca_path, update_ca_path_env_var,
  debian_ca_secret_volume_mount_path, debian_complete_ca_volume_mount_path,
  redhat_ca_secret_volume_mount_path, redhat_complete_ca_volume_mount_path,
}

unfoldable pub get_ca_secret_volumes :
    Mutator → Pod → GoString → GoString → GoString → Exec (List Volume)
get_ca_secret_volumes mut pod root_obj_name ca_secret_volume_name ca_complete_volume_name =
    elim (projected_sources mut pod root_obj_name) [
      | returns sources ↦ returns (
          record { name = ca_secret_volume_name; source = projected mut.default_mode sources }
          ∷ record { name = ca_complete_volume_name; source = empty_dir }
          ∷ [])
      | panics why ↦ panics why
      | diverges ↦ diverges
    ]

-- What the switch over the family sets: two mount paths and the image.
pub record FamilyPaths : Type 0 where
  pub ca_secret_mount_path : GoString
  pub complete_ca_mount_path : GoString
  pub image : GoString

unfoldable pub family_paths : Mutator → GoString → FamilyPaths
family_paths mut f =
    if str_eq f debian_family
    then record {
      ca_secret_mount_path = debian_ca_secret_volume_mount_path;
      complete_ca_mount_path = debian_complete_ca_volume_mount_path;
      image = mut.debian_init_image;
    }
    else if str_eq f redhat_family
    then record {
      ca_secret_mount_path = redhat_ca_secret_volume_mount_path;
      complete_ca_mount_path = redhat_complete_ca_volume_mount_path;
      image = mut.redhat_init_image;
    }
    else record { ca_secret_mount_path = []; complete_ca_mount_path = []; image = [] }

unfoldable pub mount : VolumeMount → Container → Container
mount m c = record c { volume_mounts = c.volume_mounts ++ m ∷ [] }

unfoldable pub ca_init_container : Mutator → FamilyPaths → GoString → GoString → Container
ca_init_container mut paths ca_secret_volume_name ca_complete_volume_name = record {
  name = ca_init_container_name;
  image = paths.image;
  resources = to_k8s mut.container_resources;
  env = record { name = update_ca_path_env_var; value = update_ca_path } ∷ [];
  volume_mounts =
      record {
        name = ca_secret_volume_name;
        mount_path = paths.ca_secret_mount_path;
        read_only = true;
      }
      ∷ record { name = ca_complete_volume_name; mount_path = update_ca_path; read_only = false }
      ∷ [];
}

-- The pod with the volumes, the init container in front and the bundle mounted everywhere.
unfoldable pub with_ca_volumes : Mutator → Pod → List Volume → GoString → GoString → Pod
unfolding family_paths mount ca_init_container
with_ca_volumes mut pod volumes ca_secret_volume_name ca_complete_volume_name =
    let paths = family_paths mut (family mut.extractor pod.meta) in
    let complete_ca_volume_mount : VolumeMount = record {
      name = ca_complete_volume_name;
      mount_path = paths.complete_ca_mount_path;
      read_only = false;
    } in
    record pod {
      volumes = pod.volumes ++ volumes;
      init_containers =
          ca_init_container mut paths ca_secret_volume_name ca_complete_volume_name
          ∷ map (mount complete_ca_volume_mount) pod.init_containers;
      containers = map (mount complete_ca_volume_mount) pod.containers;
    }

-- The pod after the call, which changes it in place, and the error.
module _ {S : Type 0} (client : Client S) (fuel : ℕ) where
  unfoldable pub add_ca_secret_volumes :
      Mutator → Pod → GoString → GoString → GoString → Go S (Pod × Option Error)
  add_ca_secret_volumes mut pod namespace ca_secret_volume_name ca_complete_volume_name = do
    owner ← root_owner client namespace fuel pod.meta none
    elim owner [
      | err e ↦ pure (pod, some (errorf (text "getting root object: %w") [] e))
      | ok none ↦ panic (text "nil pointer dereference")
      | ok (some owner_ref) ↦
          elim (get_ca_secret_volumes mut pod owner_ref.name ca_secret_volume_name
            ca_complete_volume_name) [
              | returns volumes ↦ pure (
                with_ca_volumes mut pod volumes ca_secret_volume_name ca_complete_volume_name,
                none,
              )
              | panics why ↦ panic why
              | diverges ↦ λ s. diverges
            ]
    ]
