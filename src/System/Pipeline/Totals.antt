-- ===== src/System/Pipeline/Totals.antt =====
-- Sums over the messages of the reviews, and what a message that is sent does to them.
use cain.Prelude.{ℕ, ◌+◌, ◌≡◌, refl, ap, ◌⊎◌, inl, inr, List, [], ◌∷◌, ◌++◌, arith, All}
use cain.System.Pipeline.{Message, Takes, here, there}

abbrev pub total {ℓ} : {A : Type ℓ} → (A → ℕ) → List A → ℕ
total f [] = 0
total f (x ∷ xs) = f x + total f xs

pub total-append {ℓ} :
    {A : Type ℓ} (f : A → ℕ) (xs ys : List A) → total f (xs ++ ys) ≡ total f xs + total f ys
total-append f [] ys = omega arith
total-append f (x ∷ xs) ys = omega (arith, total-append f xs ys)

-- The sum over all messages that are still to be sent.
abbrev pub over_reviews : (Message → ℕ) → List (List Message) → ℕ
over_reviews f = total (total f)

pub Takes-total :
    (f : Message → ℕ) {m : Message} {reviews rest : List (List Message)}
    → Takes m reviews rest
    → over_reviews f reviews ≡ f m + over_reviews f rest
Takes-total f here = omega arith
Takes-total f (there t) = omega (arith, Takes-total f t)

-- What holds of all messages holds of the one that is sent, and of the others.
abbrev pub AllMessages {κ} : (Message → Type κ) → List (List Message) → Type κ
AllMessages P = All (All P)

pub Takes-AllMessages {κ} :
    (P : Message → Type κ) {m : Message} {reviews rest : List (List Message)}
    → Takes m reviews rest
    → AllMessages P reviews
    → P m × AllMessages P rest
Takes-AllMessages P here h = (h.0.0, (h.0.1, h.1))
Takes-AllMessages P (there t) h =
    let (first, others) = Takes-AllMessages P t h.1 in (first, (h.0, others))

-- Either all messages are sent, or one can be sent.
pub Takes-cases :
    (reviews : List (List Message))
    → All (λ (ms : List Message). ms ≡ []) reviews
      ⊎ ((m : Message) × (rest : List (List Message)) × Takes m reviews rest)
Takes-cases [] = inl tt
Takes-cases ((m ∷ ms) ∷ reviews) = inr (m, ms ∷ reviews, here)
Takes-cases ([] ∷ reviews) = elim (Takes-cases reviews) [
  | inl sent ↦ inl (refl, sent)
  | inr (m, rest, t) ↦ inr (m, [] ∷ rest, there t)
]

pub All-over_reviews :
    (f : Message → ℕ) (reviews : List (List Message))
    → All (λ (ms : List Message). ms ≡ []) reviews
    → over_reviews f reviews ≡ 0
All-over_reviews f [] h = refl
All-over_reviews f (ms ∷ reviews) h =
    omega (arith, ap (total f) h.0, All-over_reviews f reviews h.1)
