-- ===== src/System/Pipeline/Reviews/Sending.antt =====
-- What each branch of the validating webhook sends (webhook/validator.go).
use cain.Prelude.{
  ℕ, ◌≡◌, refl, sym, subst, inl, inr, Bool-cases, Bool, true, false, none, some, List, [], ◌∷◌,
  arith, append-nil, All,
}
use cain.Go.Text.{GoString}
use cain.Go.Errors.{Result, ok, err}
use cain.Go.Exec.{Exec, returns, panics, diverges}
use cain.Kube.Meta.{OwnerReference}
use cain.Kube.Pods.{Pod, Object, a_pod, other, object_meta}
use cain.Kube.Client.{Client}
use cain.Metadata.{is_injection_enabled, is_jvm_enabled}
use cain.Certificates.Creator.{new_certificate}
use cain.Webhook.Owner.{Owner, root_owner}
use cain.Webhook.Review.{
  Operation, AdmissionReview, create_operation, delete_operation, other_operation,
}
use cain.Webhook.Validator.{
  Validator, World, ValidatorResult, delete_operation_of, create_resources, validate,
  creation_request, cert_info, validator_secret_name, dispatch,
}
use cain.Webhook.Validator.Sends.{IsOpen}
use cain.System.Pipeline.{Message, creation, deletion, certification, IsNamed, IsNamedMessage}
use cain.System.Pipeline.Reviews.{Asks, nothing, a_deletion, a_creation, with_cert, Messages}

pub Asks-IsNamedMessage :
    (issuer ns : GoString) {ms : List Message} → Asks issuer ns ms → All (IsNamedMessage issuer) ms
Asks-IsNamedMessage issuer ns nothing = tt
Asks-IsNamedMessage issuer ns (a_deletion req here) = (tt, tt)
Asks-IsNamedMessage issuer ns (a_creation req here) = (tt, tt)
Asks-IsNamedMessage issuer ns (with_cert req info here there named) = (tt, (named, tt))

module _ {S : Type 0} (client : Client S) (fuel : ℕ) (v : Validator) (issuer : GoString) where
  Messages-nothing :
      (rev : AdmissionReview) (w w' : World S)
      → IsOpen w
      → w'.sec_creation ≡ w.sec_creation
      → w'.sec_deletion ≡ w.sec_deletion
      → w'.cert_creation ≡ w.cert_creation
      → Messages issuer rev w w'
  Messages-nothing rev w w' is_open a b c = record {
    messages = [];
    asks = nothing;
    sent = record {
      open_still = record {
        sec_creation = rw a is_open.sec_creation;
        sec_deletion = rw b is_open.sec_deletion;
        cert_creation = rw c is_open.cert_creation;
      };
      sec_creation = rw a (sym (append-nil w.sec_creation.sent));
      sec_deletion = rw b (sym (append-nil w.sec_deletion.sent));
      cert_creation = rw c (sym (append-nil w.cert_creation.sent));
    };
  }

  cert_info-IsNamed :
      (pod : Pod) (rev : AdmissionReview) (owner : OwnerReference)
      → IsNamed issuer (cert_info v pod rev owner)
  unfolding cert_info new_certificate
  cert_info-IsNamed pod rev owner = (_, refl)

  create-Messages :
      (rev : AdmissionReview) (pod : Pod) (res : ValidatorResult) (w w' : World S)
      (x : Exec (Owner × S))
      → IsOpen w
      → root_owner client rev.namespace fuel pod.meta none w.api ≡ x
      → create_resources client fuel v pod rev w ≡ returns (res, w')
      → Messages issuer rev w w'
  unfolding create_resources
  create-Messages rev pod res w w' (returns (ok (some owner), s)) is_open o h =
      elim (Bool-cases rev.dry_run) [
        | inl dry ↦ Messages-nothing rev w w' is_open (ground arith) (ground arith) (ground arith)
        | inr real ↦ elim (Bool-cases (is_jvm_enabled v.extractor pod.meta)) [
          | inl jvm ↦ record {
            messages =
                creation (creation_request v rev owner)
                ∷ certification (cert_info v pod rev owner)
                ∷ [];
            asks =
                with_cert (creation_request v rev owner) (cert_info v pod rev owner)
                  (unfold creation_request in refl) (unfold cert_info in refl)
                  (cert_info-IsNamed pod rev owner);
            sent = record {
              open_still = record {
                sec_creation = ground arith;
                sec_deletion = ground arith;
                cert_creation = ground arith;
              };
              sec_creation = ground arith;
              sec_deletion = ground (arith, append-nil w.sec_deletion.sent);
              cert_creation = ground arith;
            };
          }
          | inr plain ↦ record {
            messages = creation (creation_request v rev owner) ∷ [];
            asks = a_creation (creation_request v rev owner) (unfold creation_request in refl);
            sent = record {
              open_still = record {
                sec_creation = ground arith;
                sec_deletion = ground arith;
                cert_creation = ground arith;
              };
              sec_creation = ground arith;
              sec_deletion = ground (arith, append-nil w.sec_deletion.sent);
              cert_creation = ground (arith, append-nil w.cert_creation.sent);
            };
          }
        ]
      ]
  create-Messages rev pod res w w' (returns (ok none, s)) is_open o h = absurd (ground arith)
  create-Messages rev pod res w w' (returns (err e, s)) is_open o h =
      Messages-nothing rev w w' is_open (ground arith) (ground arith) (ground arith)
  create-Messages rev pod res w w' (panics why) is_open o h = absurd (ground arith)
  create-Messages rev pod res w w' diverges is_open o h = absurd (ground arith)

  delete-Messages :
      (rev : AdmissionReview) (pod : Pod) (res : ValidatorResult) (w w' : World S)
      → IsOpen w
      → delete_operation_of client fuel v pod rev w ≡ returns (res, w')
      → (refs : List OwnerReference) → pod.meta.owner_references ≡ refs
      → Messages issuer rev w w'
  unfolding delete_operation_of
  delete-Messages rev pod res w w' is_open h (ref ∷ refs) owned =
      Messages-nothing rev w w' is_open (ground arith) (ground arith) (ground arith)
  delete-Messages rev pod res w w' is_open h [] alone = elim (Bool-cases rev.dry_run) [
    | inl dry ↦ Messages-nothing rev w w' is_open (ground arith) (ground arith) (ground arith)
    | inr real ↦ record {
      messages =
          deletion
            (record { name = validator_secret_name v pod.meta.name; namespace = rev.namespace })
          ∷ [];
      asks = a_deletion _ refl;
      sent = record {
        open_still = record {
          sec_creation = ground arith;
          sec_deletion = ground arith;
          cert_creation = ground arith;
        };
        sec_creation = ground (arith, append-nil w.sec_creation.sent);
        sec_deletion = ground arith;
        cert_creation = ground (arith, append-nil w.cert_creation.sent);
      };
    }
  ]

  dispatch-Messages :
      (op : Operation) (rev : AdmissionReview) (pod : Pod) (res : Result ValidatorResult)
      (w w' : World S) (x y : Exec (ValidatorResult × World S))
      → IsOpen w
      → create_resources client fuel v pod rev w ≡ x
      → delete_operation_of client fuel v pod rev w ≡ y
      → dispatch client fuel v op pod rev w ≡ returns (res, w')
      → Messages issuer rev w w'
  unfolding dispatch
  dispatch-Messages delete_operation rev pod res w w' x (returns (r, u)) is_open c d h =
      subst (Messages issuer rev w) (ground arith) (delete-Messages rev pod r w u is_open d _ refl)
  dispatch-Messages delete_operation rev pod res w w' x (panics why) is_open c d h =
      absurd (ground arith)
  dispatch-Messages delete_operation rev pod res w w' x diverges is_open c d h =
      absurd (ground arith)
  dispatch-Messages create_operation rev pod res w w' (returns (r, u)) y is_open c d h =
      subst (Messages issuer rev w) (ground arith) (create-Messages rev pod r w u _ is_open refl c)
  dispatch-Messages create_operation rev pod res w w' (panics why) y is_open c d h =
      absurd (ground arith)
  dispatch-Messages create_operation rev pod res w w' diverges y is_open c d h =
      absurd (ground arith)
  dispatch-Messages (other_operation name) rev pod res w w' x y is_open c d h =
      Messages-nothing rev w w' is_open (ground arith) (ground arith) (ground arith)

  object-Messages :
      (rev : AdmissionReview) (obj : Object) (res : Result ValidatorResult) (w w' : World S)
      (on : Bool)
      → IsOpen w
      → is_injection_enabled v.extractor (object_meta obj) ≡ on
      → validate client fuel v none rev obj w ≡ returns (res, w')
      → Messages issuer rev w w'
  unfolding validate
  object-Messages rev obj res w w' false is_open on h =
      Messages-nothing rev w w' is_open (ground arith) (ground arith) (ground arith)
  object-Messages rev (other m) res w w' true is_open on h =
      Messages-nothing rev w w' is_open (ground arith) (ground arith) (ground arith)
  object-Messages rev (a_pod pod) res w w' true is_open on h =
      dispatch-Messages rev.operation rev pod res w w' _ _ is_open refl refl (ground arith)

  -- Whatever the object, the operation, the outcome and the API server: a call with a context that is not
  -- done, on open channels, that returns has left the channels open, and has sent nothing, or one request to
  -- delete a secret, or one to create a secret, or one to create a secret and one for a certificate. All are
  -- of the namespace of the review, and the certificate worker can make a certificate of the last: it does
  -- not panic.
  pub validate-Messages :
      (rev : AdmissionReview) (obj : Object) (res : Result ValidatorResult) (w w' : World S)
      → IsOpen w
      → validate client fuel v none rev obj w ≡ returns (res, w')
      → Messages issuer rev w w'
  validate-Messages rev obj res w w' is_open h = object-Messages rev obj res w w' _ is_open refl h
