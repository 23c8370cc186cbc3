-- ===== src/Prelude/Lists.antt =====
-- List functions over the native numbers, under the library's names, and predicates on lists.
use Prim.Native.Nat.{ℕ, zero, suc, ◌+◌, ◌-◌}
use mathlib.Core.Path.{◌≡◌, refl, ap, sym, ◌∙◌}
use mathlib.Core.Option.{Option, none, some}
use mathlib.Core.List.{List, [], ◌∷◌, ◌++◌, map, append_assoc, append-nil}
use native.Mathlib.Omega.{arith}

module _ {ℓ} {A : Type ℓ} where
  abbrev pub length : List A → ℕ
  length [] = 0
  length (x ∷ xs) = suc (length xs)

  abbrev pub get_elem? : List A → ℕ → Option A
  get_elem? [] i = none
  get_elem? (x ∷ xs) zero = some x
  get_elem? (x ∷ xs) (suc i) = get_elem? xs i

  abbrev pub get_or : List A → ℕ → A → A
  get_or [] i d = d
  get_or (x ∷ xs) zero d = x
  get_or (x ∷ xs) (suc i) d = get_or xs i d

  abbrev pub drop : ℕ → List A → List A
  drop zero xs = xs
  drop (suc n) [] = []
  drop (suc n) (x ∷ xs) = drop n xs

  abbrev pub take : ℕ → List A → List A
  take zero xs = []
  take (suc n) [] = []
  take (suc n) (x ∷ xs) = x ∷ take n xs

  pub length-append : (xs ys : List A) → length (xs ++ ys) ≡ length xs + length ys
  length-append [] ys = omega arith
  length-append (x ∷ xs) ys = omega (arith, length-append xs ys)

  pub length-drop : (n : ℕ) (xs : List A) → length (drop n xs) ≡ length xs - n
  length-drop zero xs = omega arith
  length-drop (suc n) [] = omega arith
  length-drop (suc n) (x ∷ xs) = omega (arith, length-drop n xs)

  pub take-append-drop : (n : ℕ) (xs : List A) → take n xs ++ drop n xs ≡ xs
  take-append-drop zero xs = refl
  take-append-drop (suc n) [] = refl
  take-append-drop (suc n) (x ∷ xs) = ap (λ (r : List A). x ∷ r) (take-append-drop n xs)

module _ {ℓ κ} {A : Type ℓ} (P : A → Type κ) where
  abbrev pub All : List A → Type κ
  All [] = Unit
  All (x ∷ xs) = P x × All xs

  pub All-append : (xs ys : List A) → All xs → All ys → All (xs ++ ys)
  All-append [] ys hx hy = hy
  All-append (x ∷ xs) ys hx hy = (hx.0, All-append xs ys hx.1 hy)

pub length-map {ℓ κ} :
    {A : Type ℓ} {B : Type κ} (f : A → B) (xs : List A) → length (map f xs) ≡ length xs
length-map f [] = refl
length-map f (x ∷ xs) = ap suc (length-map f xs)

-- Membership as data, which a match takes apart.
pub data Member {ℓ} {A : Type ℓ} (a : A) : List A → Type ℓ where
  first : {xs : List A} → Member a (a ∷ xs)
  later : {b : A} {xs : List A} → Member a xs → Member a (b ∷ xs)

module _ {ℓ} {A : Type ℓ} where
  pub Member-append_left : {a : A} {xs : List A} (ys : List A) → Member a xs → Member a (xs ++ ys)
  Member-append_left ys first = first
  Member-append_left ys (later m) = later (Member-append_left ys m)

  pub Member-append_right : {a : A} (xs : List A) {ys : List A} → Member a ys → Member a (xs ++ ys)
  Member-append_right [] m = m
  Member-append_right (x ∷ xs) m = later (Member-append_right xs m)

  -- `ys` begins with `xs`.
  abbrev pub IsPrefix : List A → List A → Type ℓ
  IsPrefix xs ys = (zs : List A) × (ys ≡ xs ++ zs)

  pub IsPrefix-refl : (xs : List A) → IsPrefix xs xs
  IsPrefix-refl xs = ([], sym (append-nil xs))

  pub IsPrefix-append : (xs ys : List A) → IsPrefix xs (xs ++ ys)
  IsPrefix-append xs ys = (ys, refl)

  pub IsPrefix-trans : (xs ys zs : List A) → IsPrefix xs ys → IsPrefix ys zs → IsPrefix xs zs
  IsPrefix-trans xs ys zs (a, p) (b, q) =
      (a ++ b, q ∙ ap (λ (r : List A). r ++ b) p ∙ append_assoc xs a b)

module _ {ℓ} {A : Type ℓ} (R : A → A → Type 0) where
  -- The lists are of one length, and their elements are related one by one.
  abbrev pub Each : List A → List A → Type 0
  Each [] [] = Unit
  Each [] (y ∷ ys) = ⊥
  Each (x ∷ xs) [] = ⊥
  Each (x ∷ xs) (y ∷ ys) = R x y × Each xs ys

  pub Each-refl : ((x : A) → R x x) → (xs : List A) → Each xs xs
  Each-refl r [] = tt
  Each-refl r (x ∷ xs) = (r x, Each-refl r xs)

  pub Each-map : (f : A → A) → ((x : A) → R x (f x)) → (xs : List A) → Each xs (map f xs)
  Each-map f r [] = tt
  Each-map f r (x ∷ xs) = (r x, Each-map f r xs)

  pub Each-trans :
      ((x y z : A) → R x y → R y z → R x z)
      → (xs ys zs : List A) → Each xs ys
      → Each ys zs
      → Each xs zs
  Each-trans t [] [] [] a b = tt
  Each-trans t [] [] (z ∷ zs) a b = b
  Each-trans t [] (y ∷ ys) zs a b = absurd a
  Each-trans t (x ∷ xs) [] zs a b = absurd a
  Each-trans t (x ∷ xs) (y ∷ ys) [] a b = b
  Each-trans t (x ∷ xs) (y ∷ ys) (z ∷ zs) a b = (t x y z a.0 b.0, Each-trans t xs ys zs a.1 b.1)

  -- A list that is related to `xs ++ ys` has a part for `xs` and one for `ys`.
  pub Each-split :
      (xs ys zs : List A)
      → Each (xs ++ ys) zs
      → (us : List A) × (vs : List A) × (zs ≡ us ++ vs) × Each xs us × Each ys vs
  Each-split [] ys zs e = ([], zs, refl, tt, e)
  Each-split (x ∷ xs) ys [] e = absurd e
  Each-split (x ∷ xs) ys (z ∷ zs) e =
      let (us, vs, same, front, rest) = Each-split xs ys zs e.1 in
      (z ∷ us, vs, ap (λ (r : List A). z ∷ r) same, (e.0, front), rest)

  pub Each-append : (xs ys us vs : List A) → Each xs us → Each ys vs → Each (xs ++ ys) (us ++ vs)
  Each-append [] ys [] vs a b = b
  Each-append [] ys (u ∷ us) vs a b = absurd a
  Each-append (x ∷ xs) ys [] vs a b = absurd a
  Each-append (x ∷ xs) ys (u ∷ us) vs a b = (a.0, Each-append xs ys us vs a.1 b)
