-- ===== src/System/Pipeline/Reviews.antt =====
-- What one call of the validating webhook gives the workers to do (webhook/validator.go).
pub mod Sending
use cain.Prelude.{
  ℕ, ◌≡◌, refl, sym, subst, inl, inr, Bool-cases, Bool, true, false, Option, none, some, List, [],
  ◌∷◌, ◌++◌, arith, append-nil,
}
use cain.Go.Text.{GoString}
use cain.Go.Errors.{Result, ok, err}
use cain.Go.Exec.{Exec, returns, panics, diverges}
use cain.Kube.Meta.{OwnerReference}
use cain.Kube.Pods.{Pod, Object, a_pod, other, object_meta}
use cain.Kube.Client.{Client}
use cain.Metadata.{is_injection_enabled, is_jvm_enabled}
use cain.Secrets.Requests.{CreationRequest, DeletionRequest}
use cain.Certificates.Creator.{Info, Certificate, new_certificate}
use cain.Webhook.Owner.{Owner, root_owner}
use cain.Webhook.Review.{
  Operation, AdmissionReview, create_operation, delete_operation, other_operation,
}
use cain.Webhook.Validator.{
  Validator, World, ValidatorResult, delete_operation_of, create_resources, validate,
  creation_request, cert_info, validator_secret_name, dispatch,
}
use cain.Webhook.Validator.Sends.{IsOpen}
use cain.System.Pipeline.{Message, creation, deletion, certification, IsNamed}

-- The messages for each channel.
abbrev pub to_sec_creation : List Message → List CreationRequest
to_sec_creation [] = []
to_sec_creation (creation req ∷ ms) = req ∷ to_sec_creation ms
to_sec_creation (deletion req ∷ ms) = to_sec_creation ms
to_sec_creation (certification info ∷ ms) = to_sec_creation ms

abbrev pub to_sec_deletion : List Message → List DeletionRequest
to_sec_deletion [] = []
to_sec_deletion (creation req ∷ ms) = to_sec_deletion ms
to_sec_deletion (deletion req ∷ ms) = req ∷ to_sec_deletion ms
to_sec_deletion (certification info ∷ ms) = to_sec_deletion ms

abbrev pub to_cert_creation : List Message → List Info
to_cert_creation [] = []
to_cert_creation (creation req ∷ ms) = to_cert_creation ms
to_cert_creation (deletion req ∷ ms) = to_cert_creation ms
to_cert_creation (certification info ∷ ms) = info ∷ to_cert_creation ms

-- From `w` to `w'` the messages have been sent, and the channels are open still.
pub record Sent {S : Type 0} (ms : List Message) (w w' : World S) : Type 0 where
  pub open_still : IsOpen w'
  pub sec_creation : w'.sec_creation.sent ≡ w.sec_creation.sent ++ to_sec_creation ms
  pub sec_deletion : w'.sec_deletion.sent ≡ w.sec_deletion.sent ++ to_sec_deletion ms
  pub cert_creation : w'.cert_creation.sent ≡ w.cert_creation.sent ++ to_cert_creation ms

-- What a review can ask for in the namespace `ns`: nothing, to delete a secret, to create one, or to create one
-- and then a certificate, of which the certificate worker with the given issuer can make one.
pub data Asks (issuer ns : GoString) : List Message → Type 0 where
  nothing : Asks issuer ns []
  a_deletion : (req : DeletionRequest) → req.namespace ≡ ns → Asks issuer ns (deletion req ∷ [])
  a_creation : (req : CreationRequest) → req.namespace ≡ ns → Asks issuer ns (creation req ∷ [])
  with_cert :
      (req : CreationRequest) (info : Info)
      → req.namespace ≡ ns
      → info.namespace ≡ ns
      → IsNamed issuer info
      → Asks issuer ns (creation req ∷ certification info ∷ [])

-- The messages of a call that led from `w` to `w'`.
pub record Messages {S : Type 0} (issuer : GoString) (rev : AdmissionReview) (w w' : World S)
    : Type 0 where
  pub messages : List Message
  pub asks : Asks issuer rev.namespace messages
  pub sent : Sent messages w w'
