-- ===== src/System/Cleanup.antt =====
-- Who removes the secret that a pod's creation asks for: the garbage collector, by the secret's owner
-- reference, or the worker that deletes secrets, when the pod is deleted.
use cain.Prelude.{
  ℕ, zero, suc, ◌<◌, ◌≡◌, if◌then◌else◌, refl, true, false, none, some, [], ◌∷◌, ◌++◌, arith,
}
use cain.Go.Text.{GoString, str_eq}
use cain.Go.Errors.{ok}
use cain.Go.Exec.{returns}
use cain.Kube.Meta.{ObjectMeta}
use cain.Kube.Pods.{Pod, a_pod}
use cain.Kube.Client.{Client}
use cain.Metadata.{is_injection_enabled, is_jvm_enabled}
use cain.Secrets.Requests.{CreationRequest}
use cain.Secrets.Creator.{new_secret}
use cain.Certificates.Creator.{Info, Certificate, password_request, new_certificate}
use cain.Webhook.Owner.{root_owner, top_reference}
use cain.Webhook.Review.{AdmissionReview, create_operation, delete_operation}
use cain.Webhook.Validator.{Validator, World, accepted, validate, creation_request, cert_info}
use cain.Webhook.Validator.Sends.{IsOpen, create_sends, delete_sends}

owner_of_top :
    {S : Type 0} (client : Client S) (namespace : GoString) (fuel : ℕ) (obj : ObjectMeta) (s : S)
    → 0 < fuel
    → obj.owner_references ≡ []
    → root_owner client namespace fuel obj none s ≡ returns (ok (some (top_reference obj none)), s)
unfolding root_owner
owner_of_top client namespace zero obj s enough none_left = absurd (omega arith)
owner_of_top client namespace (suc fuel) obj s enough none_left = ground arith

module _ {S : Type 0} (client : Client S) (fuel : ℕ) (v : Validator) (issuer : GoString) where
  -- Two calls, for the creation of a pod and then for its deletion, what they ask for, and what the workers
  -- make of it: no object owns the secret, the certificate or the password secret, and the one secret that
  -- is asked to be deleted is the first of these.
  pub record Lifetime (rev rev' : AdmissionReview) (pod : Pod) (w : World S) : Type 0 where
    pub created : World S
    pub deleted : World S
    pub create_call : validate client fuel v none rev (a_pod pod) w ≡ returns (ok accepted, created)
    pub delete_call :
        validate client fuel v none rev' (a_pod pod) created ≡ returns (ok accepted, deleted)
    pub secret : CreationRequest
    pub certificate : Info
    pub secret_asked : deleted.sec_creation.sent ≡ w.sec_creation.sent ++ secret ∷ []
    pub certificate_asked :
        deleted.cert_creation.sent
        ≡ w.cert_creation.sent
          ++ (if is_jvm_enabled v.extractor pod.meta then certificate ∷ [] else [])
    pub deletion_asked :
        deleted.sec_deletion.sent
        ≡ w.sec_deletion.sent
          ++ record { name = (new_secret secret).name; namespace = (new_secret secret).namespace }
            ∷ []
    pub secret_unowned : (new_secret secret).owner_references ≡ []
    pub password_unowned : (new_secret (password_request certificate)).owner_references ≡ []
    pub certificate_unowned :
        (cert : Certificate) × (new_certificate issuer certificate ≡ some cert)
        × (cert.owner_references ≡ [])

  -- For a labelled pod without owners: its creation asks for a secret that no object owns, and its
  -- deletion, in the same namespace and on channels that are open still, asks to delete the secret of just
  -- that name and namespace, and nothing else. If it is a JVM pod, its creation also asks for a
  -- certificate, and neither that nor its password secret is owned by an object. Both reviews are no dry
  -- runs.
  pub create_then_delete :
      (rev rev' : AdmissionReview) (pod : Pod) (w : World S)
      → is_injection_enabled v.extractor pod.meta ≡ true
      → pod.meta.owner_references ≡ []
      → IsOpen w
      → rev.operation ≡ create_operation
      → rev.dry_run ≡ false
      → rev'.operation ≡ delete_operation
      → rev'.dry_run ≡ false
      → rev'.namespace ≡ rev.namespace
      → 0 < fuel
      → Lifetime rev rev' pod w
  create_then_delete rev rev' pod w on none_left is_open op dry op' dry' same enough =
      let owner = top_reference pod.meta none in
      record {
        created = _;
        deleted = _;
        create_call =
            create_sends client fuel v rev pod w owner w.api is_open on op dry
              (owner_of_top client rev.namespace fuel pod.meta w.api enough none_left);
        delete_call =
            delete_sends client fuel v rev' pod _
              (record {
                sec_creation = refl;
                sec_deletion = is_open.sec_deletion;
                cert_creation = refl;
              })
              on op' dry' none_left;
        secret = creation_request v rev owner;
        certificate = cert_info v pod rev owner;
        secret_asked = refl;
        certificate_asked = refl;
        deletion_asked = (unfold new_secret creation_request in rw same refl);
        secret_unowned = (unfold new_secret creation_request str_eq in refl);
        password_unowned = (unfold new_secret password_request cert_info str_eq in refl);
        certificate_unowned = (unfold new_certificate cert_info str_eq in (_, refl, refl));
      }
