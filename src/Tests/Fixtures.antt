-- ===== src/Tests/Fixtures.antt =====
-- The objects of the tests: a labelled JVM and Python pod of a replica set, the API server that knows
-- the replica set, and the two webhooks.
use cain.Prelude.{refl, Bool, Option, none, some, [], ◌∷◌}
use cain.Go.Text.{GoString, text}
use cain.Go.Channel.{make_channel}
use cain.Go.Errors.{Error, Result, errors_new, ok}
use cain.Kube.Meta.{OwnerReference, ObjectMeta}
use cain.Kube.Pods.{Quantity, Container, Pod, Object, other}
use cain.Kube.Client.{Kind, Client, IsSettled}
use cain.Metadata.{Extractor, new_extractor}
use cain.Webhook.Config.{CaSecret, ContainerResources}
use cain.Webhook.Review.{Operation, AdmissionReview}
use cain.Webhook.Mutator.State.{Mutator, new_mutator}
use cain.Webhook.Mutator.Sources.{default_sources, default_secret_name}
use cain.Webhook.Mutator.Volumes.{with_ca_volumes}
use cain.Webhook.Mutator.Env.{with_jvm}
use cain.Webhook.Mutator.Python.{python_step}
use cain.Webhook.Mutator.SecretVolumes.{volumes_with}
use cain.Webhook.Mutator.Handler.{MutatorResult}
use cain.Webhook.Validator.{Validator, World}
use cain.Webhook.Validator.Sends.{IsOpen}

abbrev pub extractor : Extractor
extractor = new_extractor (text "io") (text "cluster.local") (text "changeit")

abbrev pub ca_secret : CaSecret
ca_secret = record { name = text "ca"; keys = text "root.crt" ∷ text "sub.crt" ∷ [] }

abbrev pub one_gib : Quantity
one_gib = record { canonical = text "1Gi" }

abbrev pub resources : ContainerResources
resources = record {
  cpu = record { limit = one_gib; request = one_gib };
  memory = record { limit = one_gib; request = one_gib };
}

abbrev pub mutator : Mutator
mutator =
    new_mutator extractor ca_secret (text "debian:1") (text "redhat:1") (text "JAVA_OPTS") resources

abbrev pub validator : Validator
validator = record {
  extractor = extractor;
  ca_secret = ca_secret;
  ca_secret_data = (text "root.crt", text "A") ∷ (text "sub.crt", text "B") ∷ [];
  sec_creation_chan = 0;
  sec_deletion_chan = 1;
  cert_creation_chan = 2;
}

abbrev pub replica_set_ref : OwnerReference
replica_set_ref = record { kind = text "ReplicaSet"; name = text "web"; uid = text "1" }

abbrev pub meta : Option OwnerReference → ObjectMeta
meta owner = record {
  name = text "web-0";
  namespace = text "shop";
  labels = some ((text "cain.io/enabled", text "true") ∷ []);
  annotations =
      some ((text "cain.io/jvm", text "true") ∷ (text "cain.io/python", text "true") ∷ []);
  owner_references = elim owner [ none ↦ [] | some ref ↦ ref ∷ [] ];
}

abbrev pub app : Container
app = record {
  name = text "app";
  image = text "app:1";
  resources = record { limits = []; requests = [] };
  env = record { name = text "JAVA_OPTS"; value = text "-Xmx1g" } ∷ [];
  volume_mounts = [];
}

abbrev pub pod : Pod
pod = record {
  meta = meta (some replica_set_ref);
  volumes = [];
  init_containers = [];
  containers = app ∷ [];
}

abbrev pub lone_pod : Pod
lone_pod = record pod { meta = meta none }

-- Every object that is asked for exists and has no owner.
abbrev pub answer : Kind → GoString → GoString → Result Object
answer kind ns name = ok (other (record (meta none) { name = name; namespace = ns }))

abbrev pub client : Client Unit
client = record { get = λ kind ns name s. (answer kind ns name, s) }

pub client-IsSettled : IsSettled client answer
client-IsSettled kind ns name s = refl

abbrev pub review : Operation → Bool → AdmissionReview
review operation dry_run = record {
  namespace = text "shop";
  operation = operation;
  dry_run = dry_run;
}

-- The pod after the CA step, and after all three.
abbrev pub with_ca : Pod
with_ca =
    with_ca_volumes mutator pod
      (volumes_with mutator (text "ca") (text "ca-certs")
        (default_sources (default_secret_name mutator (text "web")) 0 ca_secret.keys))
      (text "ca") (text "ca-certs")

abbrev pub patched : Pod
patched = python_step mutator (with_jvm mutator with_ca (text "web"))

abbrev pub patch : MutatorResult
patch = record { mutated_object = some patched; warnings = [] }

abbrev pub world : World Unit
world = record {
  api = tt;
  sec_creation = make_channel;
  sec_deletion = make_channel;
  cert_creation = make_channel;
}

pub world-IsOpen : IsOpen world
world-IsOpen = record { sec_creation = refl; sec_deletion = refl; cert_creation = refl }

abbrev pub cancelled : Error
cancelled = errors_new (text "context canceled")
