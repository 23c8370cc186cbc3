-- ===== src/System/Truststore.antt =====
-- The truststore of a patched JVM pod (webhook/mutator.go), and the certificate that the validating webhook
-- asks for (webhook/validator.go).
pub mod Mounting
use cain.Prelude.{
  ℕ, ◌≡◌, ◌≢◌, refl, sym, ap, subst, ◌∙◌, inl, inr, true, false, Option, none, some, List, [], ◌∷◌,
  ◌++◌, arith, All, Member, first, Member-append_left, Member-append_right,
}
use cain.Go.Text.{GoString, str_eq_iff}
use cain.Go.Errors.{Error, Result, ok}
use cain.Go.Exec.{returns}
use cain.Kube.Meta.{OwnerReference, ObjectMeta}
use cain.Kube.Pods.{secret, Volume, Pod, Object, a_pod}
use cain.Kube.Client.{Kind, Client, IsSettled}
use cain.Metadata.{
  is_injection_enabled, is_jvm_enabled, secret_volume_name, ca_volume_name, jvm_path,
}
use cain.Certificates.Names.{secret_name}
use cain.Certificates.Creator.{Info, Certificate, new_certificate}
use cain.Webhook.Owner.{root_owner}
use cain.Webhook.Owner.Stability.{root_owner_stable}
use cain.Webhook.Review.{AdmissionReview, create_operation}
use cain.Webhook.Mutator.State.{Mutator, ca_truststore_volume_name}
use cain.Webhook.Mutator.Volumes.{with_ca_volumes}
use cain.Webhook.Mutator.Env.{should_add_jvm_ca, no_truststore_volume, with_jvm}
use cain.Webhook.Mutator.Truststore.{
  UsesTruststore, with_jvm-UsesTruststore, python_step-UsesTruststore,
}
use cain.Webhook.Mutator.Handler.{MutatorResult, mutate}
use cain.Webhook.Mutator.Patched.{mutate-Patched}
use cain.Webhook.Mutator.Injection.{
  Injected, Injected-extends, CaAdded-extends, python_step_extends,
}
use cain.Webhook.Mutator.Python.{python_step}
use cain.Webhook.Mutator.Bundle.{CaAdded-volumes}
use cain.Webhook.Validator.{Validator, World, accepted, validate, cert_info}
use cain.Webhook.Validator.Sends.{IsOpen, create_sends}
use cain.System.Truststore.Mounting.{
  NoTruststore, MountsTruststore, jvm_step_on, Injected-MountsTruststore,
}

-- The certificate of a request of the validating webhook.
certificate_of :
    (issuer : GoString) (v : Validator) (q : Pod) (rev : AdmissionReview) (owner : OwnerReference)
    → (c : Certificate) × (new_certificate issuer (cert_info v q rev owner) ≡ some c)
      × (c.namespace ≡ rev.namespace)
      × (c.secret_name ≡ secret_name owner.name)
unfolding new_certificate cert_info
certificate_of issuer v q rev owner = (_, refl, refl, refl)

module _ {S : Type 0} (client : Client S) (answer : Kind → GoString → GoString → Result Object)
    (settled : IsSettled client answer) (fuel : ℕ) (mut : Mutator) (v : Validator)
    (issuer : GoString) where
  -- The validating webhook asks for a certificate, and `q` mounts the secret of that certificate.
  pub record CertificateAsked (rev : AdmissionReview) (q : Pod) (w : World S) : Type 0 where
    pub after : World S
    pub info : Info
    pub accepts : validate client fuel v none rev (a_pod q) w ≡ returns (ok accepted, after)
    pub asked : after.cert_creation.sent ≡ w.cert_creation.sent ++ info ∷ []
    pub certificate : Certificate
    pub made : new_certificate issuer info ≡ some certificate
    pub namespace : certificate.namespace ≡ rev.namespace
    pub mounts : MountsTruststore mut certificate.secret_name q.meta q

  CertificateAsked-for :
      (rev : AdmissionReview) (pod : Pod) (s t : S) (q : Pod) (w : World S)
      → v.extractor ≡ mut.extractor
      → IsOpen w
      → rev.operation ≡ create_operation
      → rev.dry_run ≡ false
      → is_injection_enabled mut.extractor pod.meta ≡ true
      → is_jvm_enabled mut.extractor pod.meta ≡ true
      → (i : Injected client fuel mut rev.namespace pod s t q)
      → should_add_jvm_ca mut i.with_ca ≡ true
      → CertificateAsked rev q w
  CertificateAsked-for rev pod s t q w same is_open op dry on jvm i adds =
      let meta = (Injected-extends client fuel mut rev.namespace pod s t q i).meta in
      let (owner, owned, mounts) =
        Injected-MountsTruststore client fuel mut rev.namespace pod s t q i adds in
      let found : root_owner client rev.namespace fuel q.meta none w.api
          ≡ returns (ok (some owner), w.api) =
        rw meta (
          root_owner_stable client answer settled rev.namespace fuel pod.meta none i.middle t w.api
            (ok (some owner)) owned) in
      let (certificate, made, placed, named) = certificate_of issuer v q rev owner in
      let jvm_on : is_jvm_enabled v.extractor q.meta ≡ true = rw (same, meta) jvm in
      record {
        after = _;
        info = cert_info v q rev owner;
        accepts =
            create_sends client fuel v rev q w owner w.api is_open (rw (same, meta) on) op dry
              found;
        asked = rw jvm_on refl;
        certificate = certificate;
        made = made;
        namespace = placed;
        mounts =
            subst (λ (m : ObjectMeta). MountsTruststore mut certificate.secret_name m q) (sym meta)
              (rw named mounts);
      }

  -- On a settled API server, if the mutating webhook patches a JVM pod without a truststore volume, with
  -- other names for the CA volumes, to `q`, then the validating webhook, called with the same extractor
  -- to create `q` in the same namespace, no dry run, on open channels, accepts it and asks for one
  -- certificate; the certificate that the worker makes of that request is of this namespace, and `q`
  -- has a volume with a file out of the secret that it names. Every container of `q` mounts this volume,
  -- and its JVM variable ends in the options that name just that file under the directory of the mount.
  pub patched_jvm_pod_asks :
      (done : Option Error) (rev rev' : AdmissionReview) (pod : Pod) (obj' : Object)
      (r : MutatorResult) (s t : S) (q : Pod) (w : World S)
      → v.extractor ≡ mut.extractor
      → IsOpen w
      → rev'.namespace ≡ rev.namespace
      → rev'.operation ≡ create_operation
      → rev'.dry_run ≡ false
      → is_jvm_enabled mut.extractor pod.meta ≡ true
      → NoTruststore pod.volumes
      → secret_volume_name mut.extractor pod.meta ≢ ca_truststore_volume_name
      → ca_volume_name mut.extractor pod.meta ≢ ca_truststore_volume_name
      → mutate client fuel mut done rev (a_pod pod) s ≡ returns ((obj', ok r), t)
      → r.mutated_object ≡ some q
      → CertificateAsked rev' q w
  patched_jvm_pod_asks done rev rev' pod obj' r s t q w same is_open ns op dry jvm clean ne ne' h
        patch =
      let p = mutate-Patched client fuel mut done rev (a_pod pod) obj' r s t q h patch in
      let same_pod : p.pod ≡ pod = let e = p.is_pod in cc e in
      let i : Injected client fuel mut rev'.namespace pod s t q =
        subst (λ n. Injected client fuel mut n pod s t q) (sym ns)
          (subst (λ x. Injected client fuel mut rev.namespace x s t q) same_pod p.injected) in
      CertificateAsked-for rev' pod s t q w same is_open op dry
        (subst (λ (x : Pod). is_injection_enabled mut.extractor x.meta ≡ true) same_pod p.enabled)
        jvm i (jvm_step_on client fuel mut rev'.namespace pod s t q i jvm clean ne ne')
