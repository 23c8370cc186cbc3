-- ===== src/Go/Format.antt =====
-- `fmt.Sprintf` for the verbs that the program uses: `%s` with strings and `%0d` with numbers.
pub mod Decimal
use mathlib.Core.Logic.{dite}
use mathlib.Core.WellFounded.{Acc}
use native.Mathlib.Decide.{dec_lt}
use cain.Prelude.{ℕ, ◌+◌, ◌/◌, ◌%◌, ◌<◌, ◌≡◌, refl, true, false, List, [], ◌∷◌, ◌++◌, arith, nat_eq}
use cain.Prelude.Order.{lt_wf}
use cain.Go.Text.{GoString, text}

-- The decimal digits of `n` in front of `out`.
digits_acc : (n : ℕ) → Acc ◌<◌ n → GoString → GoString
digits_acc n (Acc.intro _ smaller) out =
    dite (dec_lt 0 (n / 10))
      (λ h. digits_acc (n / 10) (smaller (n / 10) (omega arith)) ((b'0' + n % 10) ∷ out))
      (λ _. (b'0' + n % 10) ∷ out)

unfoldable pub decimal : ℕ → GoString
unfolding digits_acc lt_wf dec_lt
decimal n = digits_acc n (lt_wf.apply n) []

-- The arguments come as text, as many as there are verbs.
unfoldable mutual
  pub sprintf : GoString → List GoString → GoString
  sprintf [] args = []
  sprintf (c ∷ s) args = elim (nat_eq c b'%') [ true ↦ verb s args | false ↦ c ∷ sprintf s args ]

  -- Behind a `%`: the flag 0, which has no effect without a width, then the verb.
  pub verb : GoString → List GoString → GoString
  verb [] args = text "%!(NOVERB)"
  verb (c ∷ s) args = elim (nat_eq c b'0') [
    | true ↦ verb s args
    | false ↦ elim args [
      | [] ↦ text "%!" ++ c ∷ text "(MISSING)" ++ sprintf s []
      | arg ∷ rest ↦ arg ++ sprintf s rest
    ]
  ]

decimal_two : decimal 207 ≡ text "207"
unfolding decimal text
decimal_two = refl

sprintf_numbered : sprintf (text "ca-%0d.crt") (text "12" ∷ []) ≡ text "ca-12.crt"
unfolding sprintf text
sprintf_numbered = refl
