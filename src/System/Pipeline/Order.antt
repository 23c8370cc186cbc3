-- ===== src/System/Pipeline/Order.antt =====
-- The order of a certificate and of its password secret.
use cain.Prelude.{
  ℕ, ◌≡◌, refl, ◌⊎◌, inl, inr, Option, none, some, List, [], ◌∷◌, ◌++◌, All, All-append, Member,
  first, subst, sym, Member-append_left, Member-append_right,
}
use cain.Go.Text.{GoString}
use cain.Go.Errors.{ForeignError}
use cain.Kube.Secrets.{SecretClient}
use cain.Kube.Metrics.{GroupVersionKind}
use cain.Secrets.Requests.{CreationRequest}
use cain.Certificates.Creator.{Info, Certificate, password_request}
use cain.System.Pipeline.{
  Message, CertWorker, idle, sending, submitting, Pipeline, Move, to_creator, to_deleter, to_certs,
  password_to_creator, creates, deletes, certifies, Moves, stays, moves, arrives,
}

-- The secret worker has dealt with the request, or it has it in hand.
abbrev pub IsTaken : List CreationRequest → Option CreationRequest → CreationRequest → Type 0
IsTaken created creator req = Member req created ⊎ (creator ≡ some req)

IsTaken-created :
    (created : List CreationRequest) {creator : Option CreationRequest}
    {in_hand req : CreationRequest}
    → creator ≡ some in_hand
    → IsTaken created creator req
    → IsTaken (created ++ in_hand ∷ []) none req
IsTaken-created created at (inl m) = inl (Member-append_left (_ ∷ []) m)
IsTaken-created created {creator} {in_hand} {req} at (inr e) =
    let same : in_hand ≡ req = cc in
    inl (
      subst (λ (r : CreationRequest). Member r (created ++ in_hand ∷ [])) same
        (Member-append_right created first))

IsTaken-free :
    {created : List CreationRequest} {creator other : Option CreationRequest}
    {req : CreationRequest}
    → creator ≡ none
    → IsTaken created creator req
    → IsTaken created other req
IsTaken-free free (inl m) = inl m
IsTaken-free free (inr e) = cc

All-mono :
    {P Q : Info → Type 0}
    → ((i : Info) → P i → Q i)
    → (infos : List Info) → All P infos
    → All Q infos
All-mono f [] h = tt
All-mono f (i ∷ infos) h = (f i h.0, All-mono f infos h.1)

abbrev IsTakenWorker : List CreationRequest → Option CreationRequest → CertWorker → Type 0
IsTakenWorker created creator idle = Unit
IsTakenWorker created creator (sending info) = Unit
IsTakenWorker created creator (submitting info) = IsTaken created creator (password_request info)

-- The password secrets of all certificates have been taken, and so has that of the certificate to come.
pub record PasswordsTaken {S : Type 0} (p : Pipeline S) : Type 0 where
  pub certified : All (λ (i : Info). IsTaken p.created p.creator (password_request i)) p.certified
  pub certs : IsTakenWorker p.created p.creator p.certs

module _ {S : Type 0} (secrets : SecretClient S)
    (create : GoString → Certificate → S → Option ForeignError × S)
    (gvk_string : GroupVersionKind → GoString) (issuer : GoString) where
  -- The secret worker takes another request, when it is free.
  PasswordsTaken-worker :
      (p : Pipeline S) (other : Option CreationRequest)
      → p.creator ≡ none
      → (w : CertWorker) → IsTakenWorker p.created p.creator w
      → IsTakenWorker p.created other w
  PasswordsTaken-worker p other free idle h = tt
  PasswordsTaken-worker p other free (sending info) h = tt
  PasswordsTaken-worker p other free (submitting info) h = IsTaken-free free h

  IsTakenWorker-created :
      (p : Pipeline S) {req : CreationRequest}
      → p.creator ≡ some req
      → (w : CertWorker) → IsTakenWorker p.created p.creator w
      → IsTakenWorker (p.created ++ req ∷ []) none w
  IsTakenWorker-created p at idle h = tt
  IsTakenWorker-created p at (sending info) h = tt
  IsTakenWorker-created p at (submitting info) h = IsTaken-created p.created at h

  Move-PasswordsTaken :
      {p q : Pipeline S}
      → Move secrets create gvk_string issuer p q
      → PasswordsTaken p
      → PasswordsTaken q
  Move-PasswordsTaken {p} (to_creator free t) h = record {
    certified = All-mono (λ i. IsTaken-free free) p.certified h.certified;
    certs = PasswordsTaken-worker p _ free p.certs h.certs;
  }
  Move-PasswordsTaken (to_deleter free t) h = record { certified = h.certified; certs = h.certs }
  Move-PasswordsTaken (to_certs free t) h = record { certified = h.certified; certs = tt }
  Move-PasswordsTaken {p} (password_to_creator at free) h = record {
    certified = All-mono (λ i. IsTaken-free free) p.certified h.certified;
    certs = inr refl;
  }
  Move-PasswordsTaken {p} (creates at) h = record {
    certified = All-mono (λ i. IsTaken-created p.created at) p.certified h.certified;
    certs = IsTakenWorker-created p at p.certs h.certs;
  }
  Move-PasswordsTaken (deletes at) h = record { certified = h.certified; certs = h.certs }
  Move-PasswordsTaken {p} (certifies {info} at made) h = record {
    certified =
        All-append (λ (i : Info). IsTaken p.created p.creator (password_request i)) p.certified
          (info ∷ []) h.certified (subst (IsTakenWorker p.created p.creator) at h.certs, tt);
    certs = tt;
  }

  Moves-keep :
      {n : ℕ} {new : List (List Message)} {p q : Pipeline S}
      → Moves secrets create gvk_string issuer n new p q
      → PasswordsTaken p
      → PasswordsTaken q
  Moves-keep stays h = h
  Moves-keep (moves m run) h = Moves-keep run (Move-PasswordsTaken m h)
  Moves-keep (arrives run) h = Moves-keep run (record { certified = h.certified; certs = h.certs })

  -- In every state that moves lead to from one where no certificate has been made yet and the certificate
  -- worker waits, whatever the interleaving and whatever reviews arrive: of each certificate that has been asked for at the API server,
  -- the secret worker has dealt with the request for its password secret, or has it in hand; and so of the
  -- certificate that the certificate worker is about to ask for.
  pub Moves-PasswordsTaken :
      {n : ℕ} {new : List (List Message)} {p q : Pipeline S}
      → p.certified ≡ []
      → p.certs ≡ idle
      → Moves secrets create gvk_string issuer n new p q
      → PasswordsTaken q
  Moves-PasswordsTaken {p = p} made waits ms = Moves-keep ms (record {
    certified =
        subst (All (λ (i : Info). IsTaken p.created p.creator (password_request i))) (sym made) tt;
    certs = subst (IsTakenWorker p.created p.creator) (sym waits) tt;
  })
