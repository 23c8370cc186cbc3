-- ===== src/System/Pipeline/Requests.antt =====
-- The requests of each kind that reviews and workers of System/Pipeline have, and sums over them.
use cain.Prelude.{ℕ, ◌+◌, ◌≡◌, refl, Option, none, some, List, [], ◌∷◌, ◌++◌, arith}
use cain.Secrets.Requests.{CreationRequest, DeletionRequest}
use cain.Certificates.Creator.{Info, password_request}
use cain.System.Pipeline.{
  Message, creation, deletion, certification, CertWorker, idle, sending, submitting, Pipeline,
}
use cain.System.Pipeline.Totals.{total, total-append, over_reviews}

-- The lists have the same elements, each as often: whatever is summed over them, the sums are the same.
abbrev pub SameItems {ℓ} : {A : Type ℓ} → List A → List A → Type ℓ
SameItems {A = A} xs ys = (f : A → ℕ) → total f xs ≡ total f ys

-- The requests of each kind that a message leads to. A certification leads to a password secret, too.
abbrev pub creations_of : Message → List CreationRequest
creations_of (creation req) = req ∷ []
creations_of (deletion req) = []
creations_of (certification info) = password_request info ∷ []

abbrev pub deletions_of : Message → List DeletionRequest
deletions_of (creation req) = []
deletions_of (deletion req) = req ∷ []
deletions_of (certification info) = []

abbrev pub certifications_of : Message → List Info
certifications_of (creation req) = []
certifications_of (deletion req) = []
certifications_of (certification info) = info ∷ []

abbrev pub in_hand {ℓ} : {A : Type ℓ} → Option A → List A
in_hand none = []
in_hand (some a) = a ∷ []

-- The password secret that the certificate worker has still to ask for, and the request that it works on.
abbrev pub password_in_hand : CertWorker → List CreationRequest
password_in_hand idle = []
password_in_hand (sending info) = password_request info ∷ []
password_in_hand (submitting info) = []

abbrev pub info_in_hand : CertWorker → List Info
info_in_hand idle = []
info_in_hand (sending info) = info ∷ []
info_in_hand (submitting info) = info ∷ []

abbrev pub concat_map {ℓ κ} : {A : Type ℓ} {B : Type κ} → (A → List B) → List A → List B
concat_map f [] = []
concat_map f (x ∷ xs) = f x ++ concat_map f xs

total-concat_map {ℓ κ} :
    {A : Type ℓ} {B : Type κ} (f : B → ℕ) (g : A → List B) (xs : List A)
    → total f (concat_map g xs) ≡ total (λ (a : A). total f (g a)) xs
total-concat_map f g [] = refl
total-concat_map f g (x ∷ xs) =
    omega (arith, total-append f (g x) (concat_map g xs), total-concat_map f g xs)

-- All requests of a kind: those that have been dealt with, those that a worker has, and those that the
-- reviews have still to send.
pub creations : {S : Type 0} → Pipeline S → List CreationRequest
creations p =
    p.created
    ++ (in_hand p.creator
        ++ (password_in_hand p.certs ++ concat_map (concat_map creations_of) p.reviews))

pub deletions : {S : Type 0} → Pipeline S → List DeletionRequest
deletions p = p.deleted ++ (in_hand p.deleter ++ concat_map (concat_map deletions_of) p.reviews)

pub certifications : {S : Type 0} → Pipeline S → List Info
certifications p =
    p.certified ++ (info_in_hand p.certs ++ concat_map (concat_map certifications_of) p.reviews)

total-reviews {ℓ} :
    {A : Type ℓ} (f : A → ℕ) (g : Message → List A) (reviews : List (List Message))
    → total f (concat_map (concat_map g) reviews)
      ≡ over_reviews (λ (m : Message). total f (g m)) reviews
total-reviews f g [] = refl
total-reviews f g (ms ∷ reviews) = omega (
  arith,
  total-append f (concat_map g ms) (concat_map (concat_map g) reviews),
  total-concat_map f g ms,
  total-reviews f g reviews,
)

-- The sums over these requests, part by part.
module _ {S : Type 0} (p : Pipeline S) where
  pub total-creations :
      (f : CreationRequest → ℕ)
      → total f (creations p)
        ≡ total f p.created
          + (total f (in_hand p.creator)
              + (total f (password_in_hand p.certs)
                  + over_reviews (λ (m : Message). total f (creations_of m)) p.reviews))
  unfolding creations
  total-creations f = omega (
    arith,
    total-append f p.created (
        in_hand p.creator
        ++ (password_in_hand p.certs ++ concat_map (concat_map creations_of) p.reviews)),
    total-append f (in_hand p.creator)
        (password_in_hand p.certs ++ concat_map (concat_map creations_of) p.reviews),
    total-append f (password_in_hand p.certs) (concat_map (concat_map creations_of) p.reviews),
    total-reviews f creations_of p.reviews,
  )

  pub total-deletions :
      (f : DeletionRequest → ℕ)
      → total f (deletions p)
        ≡ total f p.deleted
          + (total f (in_hand p.deleter)
              + over_reviews (λ (m : Message). total f (deletions_of m)) p.reviews)
  unfolding deletions
  total-deletions f = omega (
    arith,
    total-append f p.deleted (in_hand p.deleter ++ concat_map (concat_map deletions_of) p.reviews),
    total-append f (in_hand p.deleter) (concat_map (concat_map deletions_of) p.reviews),
    total-reviews f deletions_of p.reviews,
  )

  pub total-certifications :
      (f : Info → ℕ)
      → total f (certifications p)
        ≡ total f p.certified
          + (total f (info_in_hand p.certs)
              + over_reviews (λ (m : Message). total f (certifications_of m)) p.reviews)
  unfolding certifications
  total-certifications f = omega (
    arith,
    total-append f p.certified
        (info_in_hand p.certs ++ concat_map (concat_map certifications_of) p.reviews),
    total-append f (info_in_hand p.certs) (concat_map (concat_map certifications_of) p.reviews),
    total-reviews f certifications_of p.reviews,
  )

pub arrival-creations :
    {S : Type 0} (p : Pipeline S) (ms : List Message) (f : CreationRequest → ℕ)
    → total f (creations (record p { reviews = ms ∷ p.reviews }))
      ≡ total f (concat_map creations_of ms) + total f (creations p)
arrival-creations p ms f = omega (
  arith,
  total-creations p f,
  total-creations (record p { reviews = ms ∷ p.reviews }) f,
  total-concat_map f creations_of ms,
)

pub arrival-deletions :
    {S : Type 0} (p : Pipeline S) (ms : List Message) (f : DeletionRequest → ℕ)
    → total f (deletions (record p { reviews = ms ∷ p.reviews }))
      ≡ total f (concat_map deletions_of ms) + total f (deletions p)
arrival-deletions p ms f = omega (
  arith,
  total-deletions p f,
  total-deletions (record p { reviews = ms ∷ p.reviews }) f,
  total-concat_map f deletions_of ms,
)

pub arrival-certifications :
    {S : Type 0} (p : Pipeline S) (ms : List Message) (f : Info → ℕ)
    → total f (certifications (record p { reviews = ms ∷ p.reviews }))
      ≡ total f (concat_map certifications_of ms) + total f (certifications p)
arrival-certifications p ms f = omega (
  arith,
  total-certifications p f,
  total-certifications (record p { reviews = ms ∷ p.reviews }) f,
  total-concat_map f certifications_of ms,
)
