-- ===== src/Webhook/Validator/Sends.antt =====
-- What the validating webhook sends to the workers.
use cain.Prelude.{
  ℕ, ◌≡◌, refl, subst, inl, inr, Bool-cases, Bool, true, false, none, some, List, [], ◌∷◌, ◌++◌,
  arith, if◌then◌else◌, append-nil,
}
use cain.Go.Errors.{Result, ok, err}
use cain.Go.Exec.{Exec, returns, panics, diverges}
use cain.Kube.Meta.{OwnerReference}
use cain.Kube.Pods.{Pod, Object, a_pod, other, object_meta}
use cain.Kube.Client.{Client}
use cain.Metadata.{is_injection_enabled, is_jvm_enabled}
use cain.Webhook.Owner.{Owner, root_owner}
use cain.Webhook.Review.{
  Operation, AdmissionReview, create_operation, delete_operation, other_operation,
}
use cain.Webhook.Validator.{
  Validator, World, ValidatorResult, accepted, delete_operation_of, create_resources, validate,
  creation_request, cert_info, validator_secret_name, dispatch,
}

-- The channels of the world are open.
pub record IsOpen {S : Type 0} (w : World S) : Type 0 where
  pub sec_creation : w.sec_creation.is_open ≡ true
  pub sec_deletion : w.sec_deletion.is_open ≡ true
  pub cert_creation : w.cert_creation.is_open ≡ true

module _ {S : Type 0} (client : Client S) (fuel : ℕ) (v : Validator) where
  pub create_sends :
      (rev : AdmissionReview) (pod : Pod) (w : World S) (owner : OwnerReference) (s : S)
      → IsOpen w
      → is_injection_enabled v.extractor pod.meta ≡ true
      → rev.operation ≡ create_operation
      → rev.dry_run ≡ false
      → root_owner client rev.namespace fuel pod.meta none w.api ≡ returns (ok (some owner), s)
      → validate client fuel v none rev (a_pod pod) w
        ≡ returns (
          ok accepted,
          record w {
            api = s;
            sec_creation = record {
              is_open = true;
              sent = w.sec_creation.sent ++ creation_request v rev owner ∷ [];
            };
            cert_creation = record {
              is_open = true;
              sent =
                  w.cert_creation.sent
                  ++ (if is_jvm_enabled v.extractor pod.meta
                      then cert_info v pod rev owner ∷ []
                      else []);
            };
          },
        )
  unfolding validate create_resources delete_operation_of
  create_sends rev pod w owner s is_open on op dry found =
      elim (Bool-cases (is_jvm_enabled v.extractor pod.meta)) [
        | inl jvm ↦ ground arith
        | inr plain ↦ ground (arith, append-nil w.cert_creation.sent)
      ]

  pub delete_sends :
      (rev : AdmissionReview) (pod : Pod) (w : World S)
      → IsOpen w
      → is_injection_enabled v.extractor pod.meta ≡ true
      → rev.operation ≡ delete_operation
      → rev.dry_run ≡ false
      → pod.meta.owner_references ≡ []
      → validate client fuel v none rev (a_pod pod) w
        ≡ returns (
          ok accepted,
          record w {
            sec_deletion = record {
              is_open = true;
              sent =
                  w.sec_deletion.sent
                  ++ record {
                    name = validator_secret_name v pod.meta.name;
                    namespace = rev.namespace;
                  }
                    ∷ [];
            };
          },
        )
  unfolding validate create_resources delete_operation_of
  delete_sends rev pod w is_open on op dry none_left = ground arith

  pub delete_owned :
      (rev : AdmissionReview) (pod : Pod) (w : World S)
      → is_injection_enabled v.extractor pod.meta ≡ true
      → rev.operation ≡ delete_operation
      → (ref : OwnerReference) (refs : List OwnerReference) → pod.meta.owner_references ≡ ref ∷ refs
      → validate client fuel v none rev (a_pod pod) w ≡ returns (ok accepted, w)
  unfolding validate create_resources delete_operation_of
  delete_owned rev pod w on op ref refs listed = ground arith

-- The channels of two worlds are the same.
pub record SameChannels {S : Type 0} (w w' : World S) : Type 0 where
  pub sec_creation : w'.sec_creation ≡ w.sec_creation
  pub sec_deletion : w'.sec_deletion ≡ w.sec_deletion
  pub cert_creation : w'.cert_creation ≡ w.cert_creation

SameChannels-refl : {S : Type 0} (w : World S) → SameChannels w w
SameChannels-refl w = record { sec_creation = refl; sec_deletion = refl; cert_creation = refl }

module _ {S : Type 0} (client : Client S) (fuel : ℕ) (v : Validator) where
  dry_create :
      (rev : AdmissionReview) (pod : Pod) (res : ValidatorResult) (w w' : World S)
      (x : Exec (Owner × S))
      → rev.dry_run ≡ true
      → root_owner client rev.namespace fuel pod.meta none w.api ≡ x
      → create_resources client fuel v pod rev w ≡ returns (res, w')
      → SameChannels w w'
  unfolding create_resources
  dry_create rev pod res w w' (returns (ok (some owner), s)) dry o h = ground arith
  dry_create rev pod res w w' (returns (ok none, s)) dry o h = absurd (ground arith)
  dry_create rev pod res w w' (returns (err e, s)) dry o h = ground arith
  dry_create rev pod res w w' (panics why) dry o h = absurd (ground arith)
  dry_create rev pod res w w' diverges dry o h = absurd (ground arith)

  dry_delete :
      (rev : AdmissionReview) (pod : Pod) (res : ValidatorResult) (w w' : World S)
      → rev.dry_run ≡ true
      → delete_operation_of client fuel v pod rev w ≡ returns (res, w')
      → SameChannels w w'
  unfolding delete_operation_of
  dry_delete rev pod res w w' dry h = ground arith

  dry_pod :
      (op : Operation) (rev : AdmissionReview) (pod : Pod) (res : Result ValidatorResult)
      (w w' : World S) (x y : Exec (ValidatorResult × World S))
      → rev.dry_run ≡ true
      → create_resources client fuel v pod rev w ≡ x
      → delete_operation_of client fuel v pod rev w ≡ y
      → dispatch client fuel v op pod rev w ≡ returns (res, w')
      → SameChannels w w'
  unfolding dispatch
  dry_pod delete_operation rev pod res w w' x (returns (r, u)) dry c d h =
      subst (SameChannels w) (ground arith) (dry_delete rev pod r w u dry d)
  dry_pod delete_operation rev pod res w w' x (panics why) dry c d h = absurd (ground arith)
  dry_pod delete_operation rev pod res w w' x diverges dry c d h = absurd (ground arith)
  dry_pod create_operation rev pod res w w' (returns (r, u)) y dry c d h =
      subst (SameChannels w) (ground arith) (dry_create rev pod r w u _ dry refl c)
  dry_pod create_operation rev pod res w w' (panics why) y dry c d h = absurd (ground arith)
  dry_pod create_operation rev pod res w w' diverges y dry c d h = absurd (ground arith)
  dry_pod (other_operation name) rev pod res w w' x y dry c d h =
      subst (SameChannels w) (ground arith) (SameChannels-refl w)

  dry_object :
      (rev : AdmissionReview) (obj : Object) (res : Result ValidatorResult) (w w' : World S)
      (on : Bool)
      → is_injection_enabled v.extractor (object_meta obj) ≡ on
      → rev.dry_run ≡ true
      → validate client fuel v none rev obj w ≡ returns (res, w')
      → SameChannels w w'
  unfolding validate
  dry_object rev obj res w w' false on dry h =
      subst (SameChannels w) (ground arith) (SameChannels-refl w)
  dry_object rev (other m) res w w' true on dry h =
      subst (SameChannels w) (ground arith) (SameChannels-refl w)
  dry_object rev (a_pod pod) res w w' true on dry h =
      dry_pod rev.operation rev pod res w w' _ _ dry refl refl (ground arith)

  -- A call with a context that is not done, for a dry run, sends nothing and closes no channel,
  -- whatever the object, the operation and the outcome.
  pub validate_dry_run :
      (rev : AdmissionReview) (obj : Object) (res : Result ValidatorResult) (w w' : World S)
      → rev.dry_run ≡ true
      → validate client fuel v none rev obj w ≡ returns (res, w')
      → SameChannels w w'
  validate_dry_run rev obj res w w' dry h = dry_object rev obj res w w' _ refl dry h
