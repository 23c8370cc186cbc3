-- ===== src/Webhook/Validator.antt =====
-- webhook/validator.go: the validating webhook, which asks the workers for the secret and the
-- certificate of a pod.
pub mod Sends
pub mod Shutdown
use cain.Prelude.{ℕ, Bool, true, false, not, ◌&&◌, Option, none, some, [], ◌∷◌, if◌then◌else◌}
use cain.Go.Text.{GoString, text}
use cain.Go.Channel.{Channel, send, close}
use cain.Go.Errors.{Error, Result, errors_new, errorf, ok, err}
use cain.Go.Exec.{Exec, Go, returns, panics, diverges, pure, panic, ◌>>=◌, ◌>>◌}
use cain.Go.Format.{sprintf}
use cain.Go.Maps.{Entries}
use cain.Kube.Meta.{OwnerReference}
use cain.Kube.Pods.{Pod, Object, a_pod, other, object_meta}
use cain.Kube.Client.{Client}
use cain.Metadata.{
  Extractor, is_injection_enabled, is_jvm_enabled, jvm_common_name, truststore_password,
}
use cain.Secrets.Requests.{CreationRequest, DeletionRequest}
use cain.Certificates.Creator.{Info}
use cain.Webhook.Config.{CaSecret}
use cain.Webhook.Owner.{root_owner}
use cain.Webhook.Review.{
  Operation, AdmissionReview, create_operation, delete_operation, operation_text,
}

abbrev pub err_unsupported_operation : Error
err_unsupported_operation = errors_new (text "unsupported operation")

-- A channel that is a field stands for itself by its number: the channels are numbered as they are made.
pub record Validator : Type 0 where
  pub extractor : Extractor
  pub ca_secret : CaSecret
  pub ca_secret_data : Entries GoString
  pub sec_creation_chan : ℕ
  pub sec_deletion_chan : ℕ
  pub cert_creation_chan : ℕ

unfoldable pub new_validator : Extractor → CaSecret → Entries GoString → ℕ → ℕ → ℕ → Validator
new_validator extractor ca_secret contents sec_creation_chan sec_deletion_chan cert_creation_chan =
    record {
      extractor = extractor;
      ca_secret = ca_secret;
      ca_secret_data = contents;
      sec_creation_chan = sec_creation_chan;
      sec_deletion_chan = sec_deletion_chan;
      cert_creation_chan = cert_creation_chan;
    }

-- The channels of the validator, which the workers of the process share with it, and the API server.
pub record World (S : Type 0) : Type 0 where
  pub api : S
  pub sec_creation : Channel CreationRequest
  pub sec_deletion : Channel DeletionRequest
  pub cert_creation : Channel Info

-- A message with the error that it prints, where it prints one.
pub record ValidatorResult : Type 0 where
  pub valid : Bool
  pub message : GoString
  pub cause : Option Error

abbrev pub accepted : ValidatorResult
accepted = record { valid = true; message = []; cause = none }

abbrev pub refused : GoString → Option Error → ValidatorResult
refused message cause = record { valid = false; message = message; cause = cause }

module _ {S : Type 0} where
  with_api : {A : Type 0} → Go S A → Go (World S) A
  with_api m w = elim (m w.api) [
    | returns (a, s) ↦ returns (a, record w { api = s })
    | panics why ↦ panics why
    | diverges ↦ diverges
  ]

  on_sec_creation : (Channel CreationRequest → Exec (Channel CreationRequest)) → Go (World S) Unit
  on_sec_creation f w = elim (f w.sec_creation) [
    | returns c ↦ returns (tt, record w { sec_creation = c })
    | panics why ↦ panics why
    | diverges ↦ diverges
  ]

  on_sec_deletion : (Channel DeletionRequest → Exec (Channel DeletionRequest)) → Go (World S) Unit
  on_sec_deletion f w = elim (f w.sec_deletion) [
    | returns c ↦ returns (tt, record w { sec_deletion = c })
    | panics why ↦ panics why
    | diverges ↦ diverges
  ]

  on_cert_creation : (Channel Info → Exec (Channel Info)) → Go (World S) Unit
  on_cert_creation f w = elim (f w.cert_creation) [
    | returns c ↦ returns (tt, record w { cert_creation = c })
    | panics why ↦ panics why
    | diverges ↦ diverges
  ]

  when : Bool → Go (World S) Unit → Go (World S) Unit
  when b m = if b then m else pure tt

unfoldable pub validator_secret_name : Validator → GoString → GoString
validator_secret_name v owner_name = sprintf (text "%s-%s") (v.ca_secret.name ∷ owner_name ∷ [])

unfoldable pub creation_request : Validator → AdmissionReview → OwnerReference → CreationRequest
creation_request validator adm_rev owner_ref = record {
  name = validator_secret_name validator owner_ref.name;
  namespace = adm_rev.namespace;
  kvs = validator.ca_secret_data;
  ctlr_ref = some owner_ref;
}

unfoldable pub cert_info : Validator → Pod → AdmissionReview → OwnerReference → Info
cert_info validator pod adm_rev owner_ref = record {
  pod_name = owner_ref.name;
  namespace = adm_rev.namespace;
  dns_names = jvm_common_name validator.extractor pod.meta owner_ref.name adm_rev.namespace ∷ [];
  truststore_password = truststore_password validator.extractor pod.meta;
  ctlr_ref = some owner_ref;
}

module _ {S : Type 0} (client : Client S) (fuel : ℕ) (validator : Validator) where
  unfoldable pub delete_operation_of : Pod → AdmissionReview → Go (World S) ValidatorResult
  unfolding on_sec_deletion when
  delete_operation_of pod adm_rev = elim pod.meta.owner_references [
    | ref ∷ refs ↦ pure accepted
    | [] ↦ do
      when (not adm_rev.dry_run) (
          on_sec_deletion (
            send (record {
              name = validator_secret_name validator pod.meta.name;
              namespace = adm_rev.namespace;
            })))
      pure accepted
  ]

  unfoldable pub create_resources : Pod → AdmissionReview → Go (World S) ValidatorResult
  unfolding with_api on_sec_creation on_cert_creation when
  create_resources pod adm_rev = do
    owner ← with_api (root_owner client adm_rev.namespace fuel pod.meta none)
    elim owner [
      | err e ↦ pure (refused (text "No root object found for Pod: %v") (some e))
      | ok none ↦ panic (text "nil pointer dereference")
      | ok (some owner_ref) ↦ do
        when (not adm_rev.dry_run)
            (on_sec_creation (send (creation_request validator adm_rev owner_ref)))
        when (is_jvm_enabled validator.extractor pod.meta && not adm_rev.dry_run)
            (on_cert_creation (send (cert_info validator pod adm_rev owner_ref)))
        pure accepted
    ]

  -- The case of a done context: the channels are closed, in this order.
  close_channels : Go (World S) Unit
  unfolding on_sec_creation on_cert_creation on_sec_deletion
  close_channels = do on_sec_creation close; on_cert_creation close; on_sec_deletion close

  unfoldable pub dispatch :
      Operation → Pod → AdmissionReview → Go (World S) (Result ValidatorResult)
  dispatch delete_operation pod adm_rev = do
    result ← delete_operation_of pod adm_rev
    pure (ok result)
  dispatch create_operation pod adm_rev = do result ← create_resources pod adm_rev; pure (ok result)
  dispatch operation pod adm_rev = pure (
      err (
        errorf (text "admission operation (%s): %w") (operation_text operation ∷ [])
          err_unsupported_operation))

  unfoldable pub validate :
      Option Error → AdmissionReview → Object → Go (World S) (Result ValidatorResult)
  unfolding dispatch close_channels
  validate (some done) adm_rev obj = do
    close_channels
    pure (err (errorf (text "context has been cancelled, %w") [] done))
  validate none adm_rev obj =
      if is_injection_enabled validator.extractor (object_meta obj)
      then elim obj [
        | other m ↦ pure (ok (refused (text "Provided resource was not a Pod") none))
        | a_pod pod ↦ dispatch adm_rev.operation pod adm_rev
      ]
      else pure (ok accepted)
