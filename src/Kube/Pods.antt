-- ===== src/Kube/Pods.antt =====
-- `corev1.Pod` and its parts, with the fields that the program reads or writes.
use cain.Prelude.{ℕ, Bool, List}
use cain.Go.Text.{GoString}
use cain.Go.Maps.{Entries}
use cain.Kube.Meta.{ObjectMeta}

pub record KeyToPath : Type 0 where
  pub key : GoString
  pub path : GoString

-- `corev1.VolumeProjection` of a secret.
pub record SecretProjection : Type 0 where
  pub name : GoString
  pub items : List KeyToPath

-- `other_source` stands for the sources that the program never makes.
pub data VolumeSource : Type 0 where
  projected : ℕ → List SecretProjection → VolumeSource
  empty_dir : VolumeSource
  secret : GoString → ℕ → List KeyToPath → VolumeSource
  other_source : GoString → VolumeSource

pub record Volume : Type 0 where
  pub name : GoString
  pub source : VolumeSource

pub record VolumeMount : Type 0 where
  pub name : GoString
  pub mount_path : GoString
  pub read_only : Bool

pub record EnvVar : Type 0 where
  pub name : GoString
  pub value : GoString

-- `resource.Quantity`, by its canonical text.
pub record Quantity : Type 0 where
  pub canonical : GoString

pub record ResourceRequirements : Type 0 where
  pub limits : Entries Quantity
  pub requests : Entries Quantity

pub record Container : Type 0 where
  pub name : GoString
  pub image : GoString
  pub resources : ResourceRequirements
  pub env : List EnvVar
  pub volume_mounts : List VolumeMount

pub record Pod : Type 0 where
  pub meta : ObjectMeta
  pub volumes : List Volume
  pub init_containers : List Container
  pub containers : List Container

-- `metav1.Object`: a pod, or an object of another type.
pub data Object : Type 0 where
  a_pod : Pod → Object
  other : ObjectMeta → Object

abbrev pub object_meta : Object → ObjectMeta
object_meta (a_pod p) = p.meta
object_meta (other m) = m
