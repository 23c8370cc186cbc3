-- ===== src/Webhook/Validator/Shutdown.antt =====
-- What a call with a done context leaves behind: closed channels, on which later calls panic.
use cain.Prelude.{ℕ, ◌≡◌, true, false, none, some, arith}
use cain.Go.Text.{text}
use cain.Go.Errors.{Error, Result, ok}
use cain.Go.Exec.{returns, panics}
use cain.Kube.Meta.{OwnerReference}
use cain.Kube.Pods.{Pod, Object, a_pod}
use cain.Kube.Client.{Client}
use cain.Metadata.{is_injection_enabled}
use cain.Webhook.Owner.{root_owner}
use cain.Webhook.Review.{AdmissionReview, create_operation}
use cain.Webhook.Validator.{Validator, World, ValidatorResult, validate, create_resources}

pub record IsClosed {S : Type 0} (w : World S) : Type 0 where
  pub sec_creation : w.sec_creation.is_open ≡ false
  pub sec_deletion : w.sec_deletion.is_open ≡ false
  pub cert_creation : w.cert_creation.is_open ≡ false

module _ {S : Type 0} (client : Client S) (fuel : ℕ) (v : Validator) where
  cancelled_closes :
      (e : Error) (rev : AdmissionReview) (obj : Object) (res : Result ValidatorResult)
      (w w' : World S)
      → validate client fuel v (some e) rev obj w ≡ returns (res, w')
      → IsClosed w'
  unfolding validate
  cancelled_closes e rev obj res w w' h = ground arith

  cancelled_on_closed :
      (e : Error) (rev : AdmissionReview) (obj : Object) (w : World S)
      → IsClosed w
      → validate client fuel v (some e) rev obj w ≡ panics (text "close of closed channel")
  unfolding validate
  cancelled_on_closed e rev obj w c = ground arith

  create_on_closed :
      (rev : AdmissionReview) (pod : Pod) (w : World S) (owner : OwnerReference) (s : S)
      → IsClosed w
      → is_injection_enabled v.extractor pod.meta ≡ true
      → rev.operation ≡ create_operation
      → rev.dry_run ≡ false
      → root_owner client rev.namespace fuel pod.meta none w.api ≡ returns (ok (some owner), s)
      → validate client fuel v none rev (a_pod pod) w ≡ panics (text "send on closed channel")
  unfolding validate create_resources
  create_on_closed rev pod w owner s c on op dry found = ground arith

  -- After a call whose context was done, another call whose context is done panics, and so does the
  -- creation, no dry run, of a labelled pod whose owner is found.
  pub validate_after_cancel :
      (e : Error) (rev : AdmissionReview) (obj : Object) (res : Result ValidatorResult)
      (w w' : World S)
      → validate client fuel v (some e) rev obj w ≡ returns (res, w')
      → (e' : Error) (any_rev : AdmissionReview) (any_obj : Object) (rev' : AdmissionReview)
        (pod : Pod) (owner : OwnerReference) (s : S)
      → is_injection_enabled v.extractor pod.meta ≡ true
      → rev'.operation ≡ create_operation
      → rev'.dry_run ≡ false
      → root_owner client rev'.namespace fuel pod.meta none w'.api ≡ returns (ok (some owner), s)
      → (validate client fuel v (some e') any_rev any_obj w'
          ≡ panics (text "close of closed channel"))
        × (validate client fuel v none rev' (a_pod pod) w' ≡ panics (text "send on closed channel"))
  validate_after_cancel e rev obj res w w' h e' any_rev any_obj rev' pod owner s on op dry found =
      let c = cancelled_closes e rev obj res w w' h in
      (
        cancelled_on_closed e' any_rev any_obj w' c,
        create_on_closed rev' pod w' owner s c on op dry found,
      )
