-- ===== src/Go/Text/Distinct.antt =====
-- Lists of strings without a repetition, and the test for them.
use cain.Prelude.{◌≡◌, ◌≢◌, Bool, true, not, ◌&&◌, List, [], ◌∷◌, map, arith, All}
use cain.Go.Text.{GoString, str_eq, str_eq_refl}

abbrev pub IsDistinct : List GoString → Type 0
IsDistinct [] = Unit
IsDistinct (x ∷ xs) = All (λ y. x ≢ y) xs × IsDistinct xs

differs_from : GoString → List GoString → Bool
differs_from x [] = true
differs_from x (y ∷ ys) = not (str_eq x y) && differs_from x ys

unfoldable pub distinct : List GoString → Bool
unfolding differs_from
distinct [] = true
distinct (x ∷ xs) = differs_from x xs && distinct xs

-- Distinct strings stay distinct under an injective function.
module _ (f : GoString → GoString) (injective : (a b : GoString) → f a ≡ f b → a ≡ b) where
  differs_sound :
      (x : GoString) (ys : List GoString) → differs_from x ys ≡ true → All (λ z. f x ≢ z) (map f ys)
  unfolding differs_from
  differs_sound x [] h = tt
  differs_sound x (y ∷ ys) h = (
    (λ e. let same = injective x y e in absurd (ground (arith, str_eq_refl y))),
    differs_sound x ys (ground arith),
  )

  pub IsDistinct-map : (xs : List GoString) → distinct xs ≡ true → IsDistinct (map f xs)
  unfolding distinct
  IsDistinct-map [] h = tt
  IsDistinct-map (x ∷ xs) h = (differs_sound x xs (ground arith), IsDistinct-map xs (ground arith))
