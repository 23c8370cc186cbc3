-- ===== src/System/Truststore/Mounting.antt =====
-- How a patched JVM pod mounts its truststore (webhook/mutator.go).
use cain.Prelude.{
  ℕ, ◌≡◌, ◌≢◌, refl, sym, ap, subst, ◌∙◌, inl, inr, true, none, some, List, [], ◌∷◌, ◌++◌, arith,
  All, Member, first, Member-append_left, Member-append_right,
}
use cain.Go.Text.{GoString, str_eq_iff}
use cain.Go.Errors.{ok}
use cain.Go.Exec.{returns}
use cain.Kube.Meta.{OwnerReference, ObjectMeta}
use cain.Kube.Pods.{secret, Volume, Pod}
use cain.Kube.Client.{Client}
use cain.Metadata.{is_jvm_enabled, secret_volume_name, ca_volume_name, jvm_path}
use cain.Certificates.Names.{secret_name}
use cain.Webhook.Owner.{root_owner}
use cain.Webhook.Mutator.State.{Mutator, ca_truststore_volume_name}
use cain.Webhook.Mutator.Volumes.{with_ca_volumes}
use cain.Webhook.Mutator.Env.{should_add_jvm_ca, no_truststore_volume, with_jvm}
use cain.Webhook.Mutator.Truststore.{
  UsesTruststore, with_jvm-UsesTruststore, python_step-UsesTruststore,
}
use cain.Webhook.Mutator.Injection.{Injected, CaAdded-extends, python_step_extends}
use cain.Webhook.Mutator.Python.{python_step}
use cain.Webhook.Mutator.Bundle.{CaAdded-volumes}

-- No volume of the list has the name of the truststore volume.
abbrev pub NoTruststore : List Volume → Type 0
NoTruststore [] = Unit
NoTruststore (v ∷ vs) = (v.name ≢ ca_truststore_volume_name) × NoTruststore vs

NoTruststore-append :
    (xs ys : List Volume) → NoTruststore xs → NoTruststore ys → NoTruststore (xs ++ ys)
NoTruststore-append [] ys a b = b
NoTruststore-append (x ∷ xs) ys a b = (a.0, NoTruststore-append xs ys a.1 b)

NoTruststore-found : (vs : List Volume) → NoTruststore vs → no_truststore_volume true vs ≡ true
unfolding no_truststore_volume
NoTruststore-found [] h = refl
NoTruststore-found (v ∷ vs) h =
    let ne = h.0 in
    ground (arith, str_eq_iff v.name ca_truststore_volume_name, NoTruststore-found vs h.1)

-- The truststore volume: the file of the path for `obj`, out of the secret `name`.
abbrev pub truststore_volume : Mutator → GoString → ObjectMeta → Volume
truststore_volume mut name obj =
    let file = (jvm_path mut.extractor obj).1 in
    record {
      name = ca_truststore_volume_name;
      source = secret name mut.default_mode (record { key = file; path = file } ∷ []);
    }

-- `q` has this volume, each container mounts it in the directory of the path, and the JVM variable of each
-- container ends in the options that name the file there.
pub record MountsTruststore (mut : Mutator) (name : GoString) (obj : ObjectMeta) (q : Pod)
    : Type 0 where
  pub volume : Member (truststore_volume mut name obj) q.volumes
  pub containers : All (UsesTruststore mut obj) q.containers

should_add-true :
    (mut : Mutator) (p : Pod)
    → is_jvm_enabled mut.extractor p.meta ≡ true
    → NoTruststore p.volumes
    → should_add_jvm_ca mut p ≡ true
unfolding should_add_jvm_ca
should_add-true mut p on clean = rw (on, should_add_jvm_ca) (NoTruststore-found p.volumes clean)

module _ {S : Type 0} (client : Client S) (fuel : ℕ) (mut : Mutator) (namespace : GoString) where
  with_jvm-MountsTruststore :
      (p : Pod) (owner : GoString)
      → MountsTruststore mut (secret_name owner) p.meta (with_jvm mut p owner)
  with_jvm-MountsTruststore p owner = record {
    volume = unfold with_jvm in Member-append_right p.volumes first;
    containers = with_jvm-UsesTruststore mut p owner;
  }

  python_keeps :
      (p q : Pod) (owner : GoString) (obj : ObjectMeta)
      → q ≡ python_step mut p
      → MountsTruststore mut (secret_name owner) obj p
      → MountsTruststore mut (secret_name owner) obj q
  python_keeps p q owner obj same m =
      let (more, longer) = (python_step_extends client fuel mut namespace p).volumes in
      record {
        volume =
            subst (Member _) (sym (ap (λ (x : Pod). x.volumes) same ∙ longer))
              (Member-append_left more m.volume);
        containers =
            subst (λ (x : Pod). All (UsesTruststore mut obj) x.containers) (sym same)
              (python_step-UsesTruststore mut obj p m.containers);
      }

  pub jvm_step_on :
      (pod : Pod) (s t : S) (q : Pod) (i : Injected client fuel mut namespace pod s t q)
      → is_jvm_enabled mut.extractor pod.meta ≡ true
      → NoTruststore pod.volumes
      → secret_volume_name mut.extractor pod.meta ≢ ca_truststore_volume_name
      → ca_volume_name mut.extractor pod.meta ≢ ca_truststore_volume_name
      → should_add_jvm_ca mut i.with_ca ≡ true
  jvm_step_on pod s t q i on clean secret_ne ca_ne =
      let (sources, shape) =
        CaAdded-volumes client fuel mut namespace pod s i.middle _ _ i.with_ca i.ca_step in
      let meta =
        (CaAdded-extends client fuel mut namespace pod s i.middle _ _ i.with_ca i.ca_step).meta in
      let volumes : i.with_ca.volumes ≡ pod.volumes ++ i.ca_step.volumes =
        ap (λ (x : Pod). x.volumes) i.ca_step.result ∙ (unfold with_ca_volumes in refl) in
      should_add-true mut i.with_ca (rw meta on)
        (rw (volumes, shape) (NoTruststore-append pod.volumes _ clean (secret_ne, (ca_ne, tt))))

  pub Injected-MountsTruststore :
      (pod : Pod) (s t : S) (q : Pod) (i : Injected client fuel mut namespace pod s t q)
      → should_add_jvm_ca mut i.with_ca ≡ true
      → (owner : OwnerReference) × (root_owner client namespace fuel pod.meta none i.middle
          ≡ returns (ok (some owner), t))
        × MountsTruststore mut (secret_name owner.name) pod.meta q
  Injected-MountsTruststore pod s t q i on = elim i.jvm_step [
    | inl (off, same, st) ↦ absurd (cc (on, off))
    | inr (_, added) ↦
        (let meta =
            (CaAdded-extends client fuel mut namespace pod s i.middle _ _ i.with_ca
              i.ca_step).meta in
          let owned = added.owned in
          (
            added.owner,
            rw meta at owned,
            subst (λ (m : ObjectMeta). MountsTruststore mut (secret_name added.owner.name) m q) meta
                (python_keeps i.jvm q added.owner.name i.with_ca.meta i.result (
                  subst (MountsTruststore mut (secret_name added.owner.name) i.with_ca.meta)
                    (sym added.result) (with_jvm-MountsTruststore i.with_ca added.owner.name))),
          ))
  ]
