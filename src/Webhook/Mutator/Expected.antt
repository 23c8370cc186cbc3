-- ===== src/Webhook/Mutator/Expected.antt =====
-- What the mutating webhook takes for the family of an object: the directories, the image and the init
-- container.
use cain.Prelude.{◌≡◌, refl, true, false, none, some, [], ◌∷◌, arith, if◌then◌else◌}
use cain.Go.Text.{text, str_eq}
use cain.Go.Maps.{index}
use cain.Kube.Meta.{ObjectMeta}
use cain.Kube.Pods.{Container}
use cain.Metadata.{family, secret_volume_name, ca_volume_name}
use cain.Webhook.Config.{to_k8s}
use cain.Webhook.Mutator.State.{Mutator}
use cain.Webhook.Mutator.Volumes.{FamilyPaths, family_paths, ca_init_container}

-- The directories and the image of the family that the annotation of an object names.
abbrev pub expected_paths : Mutator → ObjectMeta → FamilyPaths
expected_paths mut obj =
    let debian : FamilyPaths = record {
      ca_secret_mount_path = text "/usr/local/share/ca-certificates/injected";
      complete_ca_mount_path = text "/etc/ssl/certs/";
      image = mut.debian_init_image;
    } in
    let redhat : FamilyPaths = record {
      ca_secret_mount_path = text "/usr/share/pki/ca-trust-source/anchors";
      complete_ca_mount_path = text "/etc/pki/ca-trust/extracted";
      image = mut.redhat_init_image;
    } in
    elim (index obj.annotations mut.extractor.family_annotation) [
      | none ↦ debian
      | some value ↦ if str_eq value (text "redhat") then redhat else debian
    ]

debian_matches : str_eq (text "debian") (text "debian") ≡ true
unfolding text str_eq
debian_matches = refl

redhat_differs : str_eq (text "redhat") (text "debian") ≡ false
unfolding text str_eq
redhat_differs = refl

redhat_matches : str_eq (text "redhat") (text "redhat") ≡ true
unfolding text str_eq
redhat_matches = refl

pub family_paths-family :
    (mut : Mutator) (obj : ObjectMeta)
    → family_paths mut (family mut.extractor obj) ≡ expected_paths mut obj
unfolding family_paths family
family_paths-family mut obj = ground (arith, debian_matches, redhat_differs, redhat_matches)

-- The init container that builds the bundle: it reads the secrets in the directory of the family, and
-- writes into the empty volume.
abbrev pub expected_init : Mutator → ObjectMeta → Container
expected_init mut obj =
    let paths = expected_paths mut obj in
    let res = mut.container_resources in
    record {
      name = text "ca-cert-gen";
      image = paths.image;
      resources = record {
        limits = (text "cpu", res.cpu.limit) ∷ (text "memory", res.memory.limit) ∷ [];
        requests = (text "cpu", res.cpu.request) ∷ (text "memory", res.memory.request) ∷ [];
      };
      env = record { name = text "TMP_CERTS_DIR"; value = text "/tmp/ca-certs/" } ∷ [];
      volume_mounts =
          record {
            name = secret_volume_name mut.extractor obj;
            mount_path = paths.ca_secret_mount_path;
            read_only = true;
          }
          ∷ record {
            name = ca_volume_name mut.extractor obj;
            mount_path = text "/tmp/ca-certs/";
            read_only = false;
          }
          ∷ [];
    }

pub expected_init_lem :
    (mut : Mutator) (obj : ObjectMeta)
    → ca_init_container mut
        (expected_paths mut obj)
        (secret_volume_name mut.extractor obj)
        (ca_volume_name mut.extractor obj)
      ≡ expected_init mut obj
unfolding ca_init_container to_k8s
expected_init_lem mut obj = refl
