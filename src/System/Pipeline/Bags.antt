-- ===== src/System/Pipeline/Bags.antt =====
-- What the reviews ask for, and what has been dealt with in the end, order and interleaving forgotten.
use cain.Prelude.{ℕ, ◌+◌, ◌≡◌, ap, Option, List, [], ◌∷◌, arith, append-nil, ◌++◌}
use cain.Go.Text.{GoString}
use cain.Go.Errors.{ForeignError}
use cain.Kube.Secrets.{SecretClient}
use cain.Kube.Metrics.{GroupVersionKind}
use cain.Secrets.Requests.{CreationRequest, DeletionRequest}
use cain.Certificates.Creator.{Info, Certificate}
use cain.System.Pipeline.{
  Message, Pipeline, Move, to_creator, to_deleter, to_certs, password_to_creator, creates, deletes,
  certifies, Moves, stays, moves, arrives, IsDrained,
}
use cain.System.Pipeline.Totals.{total, total-append, over_reviews, Takes-total, All-over_reviews}
use cain.System.Pipeline.Requests.{
  SameItems, creations_of, deletions_of, certifications_of, in_hand, password_in_hand, info_in_hand,
  creations, deletions, certifications, total-creations, total-deletions, total-certifications,
  concat_map, arrival-creations, arrival-deletions, arrival-certifications,
}

module _ {S : Type 0} (secrets : SecretClient S)
    (create : GoString → Certificate → S → Option ForeignError × S)
    (gvk_string : GroupVersionKind → GoString) (issuer : GoString) where
  Move-creations :
      {p q : Pipeline S} (f : CreationRequest → ℕ)
      → Move secrets create gvk_string issuer p q
      → total f (creations p) ≡ total f (creations q)
  Move-creations {p} {q} f m = omega (arith, total-creations p f, total-creations q f, moved f m)
    where
      moved :
          {p q : Pipeline S} (f : CreationRequest → ℕ)
          → Move secrets create gvk_string issuer p q
          → total f p.created
              + (total f (in_hand p.creator)
                  + (total f (password_in_hand p.certs)
                      + over_reviews (λ (m : Message). total f (creations_of m)) p.reviews))
            ≡ total f q.created
              + (total f (in_hand q.creator)
                  + (total f (password_in_hand q.certs)
                      + over_reviews (λ (m : Message). total f (creations_of m)) q.reviews))
      moved f (to_creator free t) =
          ground (arith, Takes-total (λ (m : Message). total f (creations_of m)) t)
      moved f (to_deleter free t) =
          ground (arith, Takes-total (λ (m : Message). total f (creations_of m)) t)
      moved f (to_certs free t) =
          ground (arith, Takes-total (λ (m : Message). total f (creations_of m)) t)
      moved f (password_to_creator at free) = ground arith
      moved {p} f (creates {req} at) = ground (arith, total-append f p.created (req ∷ []))
      moved f (deletes at) = ground arith
      moved f (certifies at made) = ground arith

  Move-deletions :
      {p q : Pipeline S} (f : DeletionRequest → ℕ)
      → Move secrets create gvk_string issuer p q
      → total f (deletions p) ≡ total f (deletions q)
  Move-deletions {p} {q} f m = omega (arith, total-deletions p f, total-deletions q f, moved f m)
    where
      moved :
          {p q : Pipeline S} (f : DeletionRequest → ℕ)
          → Move secrets create gvk_string issuer p q
          → total f p.deleted
              + (total f (in_hand p.deleter)
                  + over_reviews (λ (m : Message). total f (deletions_of m)) p.reviews)
            ≡ total f q.deleted
              + (total f (in_hand q.deleter)
                  + over_reviews (λ (m : Message). total f (deletions_of m)) q.reviews)
      moved f (to_creator free t) =
          ground (arith, Takes-total (λ (m : Message). total f (deletions_of m)) t)
      moved f (to_deleter free t) =
          ground (arith, Takes-total (λ (m : Message). total f (deletions_of m)) t)
      moved f (to_certs free t) =
          ground (arith, Takes-total (λ (m : Message). total f (deletions_of m)) t)
      moved f (password_to_creator at free) = ground arith
      moved f (creates at) = ground arith
      moved {p} f (deletes {req} at) = ground (arith, total-append f p.deleted (req ∷ []))
      moved f (certifies at made) = ground arith

  Move-certifications :
      {p q : Pipeline S} (f : Info → ℕ)
      → Move secrets create gvk_string issuer p q
      → total f (certifications p) ≡ total f (certifications q)
  Move-certifications {p} {q} f m =
      omega (arith, total-certifications p f, total-certifications q f, moved f m)
    where
      moved :
          {p q : Pipeline S} (f : Info → ℕ)
          → Move secrets create gvk_string issuer p q
          → total f p.certified
              + (total f (info_in_hand p.certs)
                  + over_reviews (λ (m : Message). total f (certifications_of m)) p.reviews)
            ≡ total f q.certified
              + (total f (info_in_hand q.certs)
                  + over_reviews (λ (m : Message). total f (certifications_of m)) q.reviews)
      moved f (to_creator free t) =
          ground (arith, Takes-total (λ (m : Message). total f (certifications_of m)) t)
      moved f (to_deleter free t) =
          ground (arith, Takes-total (λ (m : Message). total f (certifications_of m)) t)
      moved f (to_certs free t) =
          ground (arith, Takes-total (λ (m : Message). total f (certifications_of m)) t)
      moved f (password_to_creator at free) = ground arith
      moved f (creates at) = ground arith
      moved f (deletes at) = ground arith
      moved {p} f (certifies {info} at made) =
          ground (arith, total-append f p.certified (info ∷ []))

  -- What a run keeps if each move keeps it, and if a review that arrives adds what its messages ask for.
  Moves-keep :
      {A : Type 0} (r : Pipeline S → List A) (g : Message → List A)
      → ((p q : Pipeline S) → Move secrets create gvk_string issuer p q → SameItems (r p) (r q))
      → ((p : Pipeline S) (ms : List Message) (f : A → ℕ)
          → total f (r (record p { reviews = ms ∷ p.reviews }))
            ≡ total f (concat_map g ms) + total f (r p))
      → {n : ℕ} {new : List (List Message)} {p q : Pipeline S}
      → Moves secrets create gvk_string issuer n new p q
      → SameItems (r p ++ concat_map (concat_map g) new) (r q)
  Moves-keep r g keep more {p = p} stays f = ap (total f) (append-nil (r p))
  Moves-keep r g keep more (moves {new = new} {p} {q} m run) f = omega (
    arith,
    total-append f (r p) (concat_map (concat_map g) new),
    total-append f (r q) (concat_map (concat_map g) new),
    keep p q m f,
    Moves-keep r g keep more run f,
  )
  Moves-keep r g keep more (arrives {new = new} {p} {ms = ms} run) f = omega (
    arith,
    total-append f (r p) (concat_map g ms ++ concat_map (concat_map g) new),
    total-append f (concat_map g ms) (concat_map (concat_map g) new),
    total-append f (r (record p { reviews = ms ∷ p.reviews })) (concat_map (concat_map g) new),
    more p ms f,
    Moves-keep r g keep more run f,
  )

  -- No request is lost, made up or dealt with twice, whatever the interleaving: when a run ends with all
  -- messages sent and all workers waiting, the secret worker has dealt with exactly the creation requests
  -- of the reviews and one password secret for each certification, the deletion worker with exactly the
  -- deletion requests, and the certificate worker with exactly the certifications, each as often as it was
  -- asked for, besides what had been dealt with before the run. The reviews are those in progress at the
  -- start and those that have arrived since.
  pub Moves-SameItems :
      {n : ℕ} {new : List (List Message)} {p q : Pipeline S}
      → Moves secrets create gvk_string issuer n new p q
      → IsDrained q
      → SameItems (creations p ++ concat_map (concat_map creations_of) new) q.created
        × SameItems (deletions p ++ concat_map (concat_map deletions_of) new) q.deleted
        × SameItems (certifications p ++ concat_map (concat_map certifications_of) new) q.certified
  Moves-SameItems {q = q} run h = (
    λ (f : CreationRequest → ℕ). omega (
      arith,
      Moves-keep creations creations_of (λ p q m f. Move-creations f m) arrival-creations run f,
      total-creations q f,
      ap (λ o. total f (in_hand o)) h.creator,
      ap (λ w. total f (password_in_hand w)) h.certs,
      All-over_reviews (λ (m : Message). total f (creations_of m)) q.reviews h.reviews,
    ),
    λ (f : DeletionRequest → ℕ). omega (
      arith,
      Moves-keep deletions deletions_of (λ p q m f. Move-deletions f m) arrival-deletions run f,
      total-deletions q f,
      ap (λ o. total f (in_hand o)) h.deleter,
      All-over_reviews (λ (m : Message). total f (deletions_of m)) q.reviews h.reviews,
    ),
    λ (f : Info → ℕ). omega (
      arith,
      Moves-keep certifications certifications_of (λ p q m f. Move-certifications f m)
          arrival-certifications run f,
      total-certifications q f,
      ap (λ w. total f (info_in_hand w)) h.certs,
      All-over_reviews (λ (m : Message). total f (certifications_of m)) q.reviews h.reviews,
    ),
  )
