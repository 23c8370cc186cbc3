-- ===== src/Go/Text/Split.antt =====
-- Splitting at a byte and joining by it.
use cain.Prelude.{
  ℕ, ◌≡◌, ◌≢◌, sym, ap, ◌∙◌, ◌⊎◌, inl, inr, List, [], ◌∷◌, ◌++◌, append-nil, append_assoc, arith,
  nat_eq, All, Bool-cases,
}
use cain.Go.Text.{GoString, split_from, split, join}

abbrev pub Lacks : ℕ → GoString → Type 0
Lacks sep = All (λ c. c ≢ sep)

-- Every text has the byte or lacks it.
pub Lacks-cases :
    (sep : ℕ) (s : GoString)
    → Lacks sep s ⊎ ((p : GoString) × (r : GoString) × (s ≡ p ++ sep ∷ r) × Lacks sep p)
Lacks-cases sep [] = inl tt
Lacks-cases sep (c ∷ s) = elim (Bool-cases (nat_eq c sep)) [
  | inl same ↦ (let e : c ≡ sep = ground arith in inr ([], s, ap (λ (x : ℕ). x ∷ s) e, tt))
  | inr other ↦
      (let ne : c ≢ sep = ground arith in
        elim (Lacks-cases sep s) [
          | inl lacks ↦ inl (ne, lacks)
          | inr (p, r, e, lacks) ↦ inr (c ∷ p, r, ap (λ (x : GoString). c ∷ x) e, (ne, lacks))
        ])
]

module _ (sep : ℕ) where
  split_from-append :
      (cur p s : GoString) → Lacks sep p → split_from sep cur (p ++ s) ≡ split_from sep (cur ++ p) s
  unfolding split_from
  split_from-append cur [] s h = rw append-nil
  split_from-append cur (c ∷ p) s h =
      let ne = h.0 in
      ground (arith, split_from-append (cur ++ c ∷ []) p s h.1, append_assoc cur (c ∷ []) p)

  split_from_sep : (cur s : GoString) → split_from sep cur (sep ∷ s) ≡ cur ∷ split_from sep [] s
  unfolding split_from
  split_from_sep cur s = ground arith

  -- A text without the byte is its only part.
  pub split_lacking : (s : GoString) → Lacks sep s → split sep s ≡ s ∷ []
  unfolding split
  split_lacking s h = ap (split_from sep []) (sym (append-nil s)) ∙ split_from-append [] s [] h

  -- The first part is the text before the first such byte.
  pub split_at : (p s : GoString) → Lacks sep p → split sep (p ++ sep ∷ s) ≡ p ∷ split sep s
  unfolding split
  split_at p s h = split_from-append [] p (sep ∷ s) h ∙ split_from_sep p s

  -- Splitting undoes joining, for parts without the byte.
  pub split-join :
      (p : GoString) (ps : List GoString)
      → All (Lacks sep) (p ∷ ps)
      → split sep (join sep (p ∷ ps)) ≡ p ∷ ps
  unfolding join
  split-join p [] h = split_lacking p h.0
  split-join p (q ∷ ps) h =
      split_at p (join sep (q ∷ ps)) h.0 ∙ ap (λ (r : List GoString). p ∷ r) (split-join q ps h.1)

  split_from-ne-nil : (cur s : GoString) → split_from sep cur s ≢ []
  unfolding split_from
  split_from-ne-nil cur [] h = cc
  split_from-ne-nil cur (c ∷ s) h = ground (arith, split_from-ne-nil (cur ++ c ∷ []) s)

  pub split-ne-nil : (s : GoString) → split sep s ≢ []
  unfolding split
  split-ne-nil s = split_from-ne-nil [] s
