-- ===== src/System/Pipeline.antt =====
-- The goroutines between a review and the API server, interleaved: the calls of the validating webhook
-- (webhook/validator.go), and the loops of the three workers (secrets/creator.go, secrets/deleter.go,
-- certificates/certcreator.go). The channels are unbuffered: a message passes when its sender and the
-- worker are both ready, and until then the sender waits. The channels stay open.
pub mod Totals
pub mod Ends
pub mod Requests
pub mod Bags
pub mod Order
pub mod Trace
pub mod Fates
pub mod Reviews
use cain.Prelude.{ℕ, zero, suc, ◌≡◌, Option, none, some, List, [], ◌∷◌, ◌++◌, All}
use cain.Go.Text.{GoString}
use cain.Go.Channel.{make_channel}
use cain.Go.Errors.{ForeignError}
use cain.Kube.Secrets.{SecretClient}
use cain.Kube.Metrics.{MetricsCall, GroupVersionKind}
use cain.Secrets.Requests.{CreationRequest, DeletionRequest}
use cain.Secrets.Creator.{handle_creation}
use cain.Secrets.Deleter.{handle_deletion}
use cain.Certificates.Creator.{Info, Certificate, Work, password_request, new_certificate, submit}

-- A message of a review to a worker.
pub data Message : Type 0 where
  creation : CreationRequest → Message
  deletion : DeletionRequest → Message
  certification : Info → Message

-- The certificate worker waits for its channel, waits to send the password secret of a request, or is
-- about to create the certificate.
pub data CertWorker : Type 0 where
  idle : CertWorker
  sending submitting : Info → CertWorker

-- The other workers wait, or have a request. `reviews` has, for each call in progress, the messages that
-- it still has to send, in their order. `created`, `deleted` and `certified` are the requests that have
-- been dealt with.
pub record Pipeline (S : Type 0) : Type 0 where
  pub reviews : List (List Message)
  pub creator : Option CreationRequest
  pub deleter : Option DeletionRequest
  pub certs : CertWorker
  pub api : S
  pub calls : List MetricsCall
  pub created : List CreationRequest
  pub deleted : List DeletionRequest
  pub certified : List Info

-- One of the reviews sends the message `m`, its next one.
pub data Takes (m : Message) : List (List Message) → List (List Message) → Type 0 where
  here :
      {ms : List Message} {reviews : List (List Message)}
      → Takes m ((m ∷ ms) ∷ reviews) (ms ∷ reviews)
  there :
      {ms : List Message} {reviews rest : List (List Message)}
      → Takes m reviews rest
      → Takes m (ms ∷ reviews) (ms ∷ rest)

module _ {S : Type 0} (secrets : SecretClient S)
    (create : GoString → Certificate → S → Option ForeignError × S)
    (gvk_string : GroupVersionKind → GoString) (issuer : GoString) where
  -- The state after a worker has dealt with its request, with a given answer.
  abbrev pub answered : Pipeline S → S × List MetricsCall → Pipeline S
  answered p (api, calls) = record p { api = api; calls = calls }

  abbrev pub after_creation : Pipeline S → CreationRequest → Pipeline S
  after_creation p req =
      record (answered p (handle_creation secrets gvk_string req (p.api, p.calls))) {
        creator = none;
        created = p.created ++ req ∷ [];
      }

  abbrev pub after_deletion : Pipeline S → DeletionRequest → Pipeline S
  after_deletion p req =
      record (answered p (handle_deletion secrets gvk_string req (p.api, p.calls))) {
        deleter = none;
        deleted = p.deleted ++ req ∷ [];
      }

  abbrev pub after_certificate : Pipeline S → Info → Certificate → Pipeline S
  after_certificate p info cert =
      let w =
        submit create gvk_string issuer info cert
          (record { api = p.api; calls = p.calls; sec_creation = make_channel }) in
      record p { api = w.api; calls = w.calls; certs = idle; certified = p.certified ++ info ∷ [] }

  -- A step of a goroutine.
  pub data Move (p : Pipeline S) : Pipeline S → Type 0 where
    -- a review hands a message to the worker that waits for it
    to_creator :
        {req : CreationRequest} {rest : List (List Message)}
        → p.creator ≡ none
        → Takes (creation req) p.reviews rest
        → Move p (record p { reviews = rest; creator = some req })
    to_deleter :
        {req : DeletionRequest} {rest : List (List Message)}
        → p.deleter ≡ none
        → Takes (deletion req) p.reviews rest
        → Move p (record p { reviews = rest; deleter = some req })
    to_certs :
        {info : Info} {rest : List (List Message)}
        → p.certs ≡ idle
        → Takes (certification info) p.reviews rest
        → Move p (record p { reviews = rest; certs = sending info })
    -- the certificate worker hands the request for the password secret to the secret worker
    password_to_creator :
        {info : Info}
        → p.certs ≡ sending info
        → p.creator ≡ none
        → Move p (record p { creator = some (password_request info); certs = submitting info })
    -- a worker deals with its request
    creates : {req : CreationRequest} → p.creator ≡ some req → Move p (after_creation p req)
    deletes : {req : DeletionRequest} → p.deleter ≡ some req → Move p (after_deletion p req)
    certifies :
        {info : Info} {cert : Certificate}
        → p.certs ≡ submitting info
        → new_certificate issuer info ≡ some cert
        → Move p (after_certificate p info cert)

  -- A run: so many moves, while reviews arrive that have these messages to send.
  pub data Moves : ℕ → List (List Message) → Pipeline S → Pipeline S → Type 0 where
    stays : {p : Pipeline S} → Moves zero [] p p
    moves :
        {n : ℕ} {new : List (List Message)} {p q r : Pipeline S}
        → Move p q
        → Moves n new q r
        → Moves (suc n) new p r
    arrives :
        {n : ℕ} {new : List (List Message)} {p r : Pipeline S} {ms : List Message}
        → Moves n new (record p { reviews = ms ∷ p.reviews }) r
        → Moves n (ms ∷ new) p r

-- Nothing is left to do: every review has sent its messages, and all workers wait.
pub record IsDrained {S : Type 0} (p : Pipeline S) : Type 0 where
  pub reviews : All (λ (ms : List Message). ms ≡ []) p.reviews
  pub creator : p.creator ≡ none
  pub deleter : p.deleter ≡ none
  pub certs : p.certs ≡ idle

-- Every certification that is asked for names a certificate: its list of DNS names is not empty, and the
-- certificate worker does not panic.
abbrev pub IsNamed : GoString → Info → Type 0
IsNamed issuer info = (cert : Certificate) × (new_certificate issuer info ≡ some cert)

abbrev pub IsNamedMessage : GoString → Message → Type 0
IsNamedMessage issuer (creation req) = Unit
IsNamedMessage issuer (deletion req) = Unit
IsNamedMessage issuer (certification info) = IsNamed issuer info

abbrev pub IsNamedWorker : GoString → CertWorker → Type 0
IsNamedWorker issuer idle = Unit
IsNamedWorker issuer (sending info) = IsNamed issuer info
IsNamedWorker issuer (submitting info) = IsNamed issuer info

pub record AreNamed {S : Type 0} (issuer : GoString) (p : Pipeline S) : Type 0 where
  pub reviews : All (All (IsNamedMessage issuer)) p.reviews
  pub certs : IsNamedWorker issuer p.certs
