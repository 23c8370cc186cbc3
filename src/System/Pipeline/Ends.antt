-- ===== src/System/Pipeline/Ends.antt =====
-- How the runs of reviews and workers end.
use cain.Prelude.{
  ℕ, suc, ◌+◌, ◌<◌, ◌≡◌, refl, ◌⊎◌, inl, inr, Option, none, some, List, arith, subst, Option-cases,
}
use cain.Go.Text.{GoString}
use cain.Go.Errors.{ForeignError}
use cain.Kube.Secrets.{SecretClient}
use cain.Kube.Metrics.{GroupVersionKind}
use cain.Certificates.Creator.{Certificate}
use cain.System.Pipeline.{
  Message, creation, deletion, certification, CertWorker, idle, sending, submitting, Pipeline,
  Takes, Move, to_creator, to_deleter, to_certs, password_to_creator, creates, deletes, certifies,
  Moves, stays, moves, arrives, IsDrained, IsNamedMessage, IsNamedWorker, AreNamed,
}
use cain.System.Pipeline.Totals.{
  AllMessages, over_reviews, Takes-total, Takes-AllMessages, Takes-cases, All-over_reviews,
}

-- The moves that a message still needs until it has been dealt with.
abbrev pub moves_of : Message → ℕ
moves_of (creation req) = 2
moves_of (deletion req) = 2
moves_of (certification info) = 4

abbrev if_busy {ℓ} : {A : Type ℓ} → Option A → ℕ
if_busy none = 0
if_busy (some a) = 1

abbrev moves_of_certs : CertWorker → ℕ
moves_of_certs idle = 0
moves_of_certs (sending info) = 3
moves_of_certs (submitting info) = 1

-- The moves that are left.
pub moves_left : {S : Type 0} → Pipeline S → ℕ
moves_left p =
    over_reviews moves_of p.reviews + if_busy p.creator + if_busy p.deleter + moves_of_certs p.certs

module _ {S : Type 0} (secrets : SecretClient S)
    (create : GoString → Certificate → S → Option ForeignError × S)
    (gvk_string : GroupVersionKind → GoString) (issuer : GoString) where
  -- Each move is one of those that were left.
  Move-moves_left :
      {p q : Pipeline S}
      → Move secrets create gvk_string issuer p q
      → moves_left p ≡ suc (moves_left q)
  unfolding moves_left
  Move-moves_left (to_creator free t) = ground (arith, Takes-total moves_of t)
  Move-moves_left (to_deleter free t) = ground (arith, Takes-total moves_of t)
  Move-moves_left (to_certs free t) = ground (arith, Takes-total moves_of t)
  Move-moves_left (password_to_creator at free) = ground arith
  Move-moves_left (creates at) = ground arith
  Move-moves_left (deletes at) = ground arith
  Move-moves_left (certifies at made) = ground arith

  Move-AreNamed :
      {p q : Pipeline S}
      → Move secrets create gvk_string issuer p q
      → AreNamed issuer p
      → AreNamed issuer q
  Move-AreNamed (to_creator free t) h = record {
    reviews = (Takes-AllMessages (IsNamedMessage issuer) t h.reviews).1;
    certs = h.certs;
  }
  Move-AreNamed (to_deleter free t) h = record {
    reviews = (Takes-AllMessages (IsNamedMessage issuer) t h.reviews).1;
    certs = h.certs;
  }
  Move-AreNamed (to_certs free t) h = record {
    reviews = (Takes-AllMessages (IsNamedMessage issuer) t h.reviews).1;
    certs = (Takes-AllMessages (IsNamedMessage issuer) t h.reviews).0;
  }
  Move-AreNamed (password_to_creator at free) h = record {
    reviews = h.reviews;
    certs = subst (IsNamedWorker issuer) at h.certs;
  }
  Move-AreNamed (creates at) h = record { reviews = h.reviews; certs = h.certs }
  Move-AreNamed (deletes at) h = record { reviews = h.reviews; certs = h.certs }
  Move-AreNamed (certifies at made) h = record { reviews = h.reviews; certs = tt }

  -- A move is possible.
  abbrev CanMove : Pipeline S → Type 0
  CanMove p = (q : Pipeline S) × Move secrets create gvk_string issuer p q

  CanMove-message :
      (p : Pipeline S) (m : Message) {rest : List (List Message)}
      → Takes m p.reviews rest
      → p.creator ≡ none
      → p.deleter ≡ none
      → p.certs ≡ idle
      → CanMove p
  CanMove-message p (creation req) t c d e = (_, to_creator c t)
  CanMove-message p (deletion req) t c d e = (_, to_deleter d t)
  CanMove-message p (certification info) t c d e = (_, to_certs e t)

  CanMove-certs :
      (p : Pipeline S) (at : CertWorker)
      → p.certs ≡ at
      → AreNamed issuer p
      → p.creator ≡ none
      → p.deleter ≡ none
      → IsDrained p ⊎ CanMove p
  CanMove-certs p idle e h c d = elim (Takes-cases p.reviews) [
    | inl sent ↦ inl (record { reviews = sent; creator = c; deleter = d; certs = e })
    | inr (m, rest, t) ↦ inr (CanMove-message p m t c d e)
  ]
  CanMove-certs p (sending info) e h c d = inr (_, password_to_creator e c)
  CanMove-certs p (submitting info) e h c d =
      let (cert, made) = subst (IsNamedWorker issuer) e h.certs in inr (_, certifies e made)

  CanMove-cases : (p : Pipeline S) → AreNamed issuer p → IsDrained p ⊎ CanMove p
  CanMove-cases p h = elim (Option-cases p.creator) [
    | inr (req, c) ↦ inr (_, creates c)
    | inl c ↦ elim (Option-cases p.deleter) [
      | inr (req, d) ↦ inr (_, deletes d)
      | inl d ↦ CanMove-certs p p.certs refl h c d
    ]
  ]

  Moves-AreNamed :
      {n : ℕ} {new : List (List Message)} {p q : Pipeline S}
      → Moves secrets create gvk_string issuer n new p q
      → AllMessages (IsNamedMessage issuer) new
      → AreNamed issuer p
      → AreNamed issuer q
  Moves-AreNamed stays new h = h
  Moves-AreNamed (moves m run) new h = Moves-AreNamed run new (Move-AreNamed m h)
  Moves-AreNamed (arrives run) new h =
      Moves-AreNamed run new.1 (record { reviews = (new.0, h.reviews); certs = h.certs })

  Moves-moves_left :
      {n : ℕ} {new : List (List Message)} {p q : Pipeline S}
      → Moves secrets create gvk_string issuer n new p q
      → moves_left p + over_reviews moves_of new ≡ n + moves_left q
  unfolding moves_left
  Moves-moves_left stays = omega arith
  Moves-moves_left (moves m run) = omega (arith, Move-moves_left m, Moves-moves_left run)
  Moves-moves_left (arrives run) = omega (arith, Moves-moves_left run)

  IsDrained-moves_left : (p : Pipeline S) → IsDrained p → moves_left p ≡ 0
  unfolding moves_left
  IsDrained-moves_left p h =
      ground (arith, All-over_reviews moves_of p.reviews h.reviews, h.creator, h.deleter, h.certs)

  -- There is no deadlock and no run without end. Start with any reviews in progress, let any others arrive,
  -- at any time, and let every certification that they ask for have a DNS name. Whatever moves come, and in
  -- whatever order: when there have been as many as `moves_left` says for the start, and as the messages of
  -- the reviews that have arrived need, all messages have been sent and all workers wait; and when there have
  -- been fewer, another move is possible. There are never more.
  pub Moves-IsDrained :
      {n : ℕ} {new : List (List Message)} {p q : Pipeline S}
      → AreNamed issuer p
      → AllMessages (IsNamedMessage issuer) new
      → Moves secrets create gvk_string issuer n new p q
      → ((n ≡ moves_left p + over_reviews moves_of new) × IsDrained q)
        ⊎ ((n < moves_left p + over_reviews moves_of new)
            × ((r : Pipeline S) × Move secrets create gvk_string issuer q r))
  Moves-IsDrained {q = q} h named run = elim (CanMove-cases q (Moves-AreNamed run named h)) [
    | inl drained ↦
        inl (omega (arith, Moves-moves_left run, IsDrained-moves_left q drained), drained)
    | inr (r, m) ↦ inr (omega (arith, Moves-moves_left run, Move-moves_left m), (r, m))
  ]
