-- ===== src/Go/Format/Decimal.antt =====
-- Decimal prints of different numbers differ.
use mathlib.Core.List.{foldl}
use mathlib.Core.WellFounded.{Acc}
use cain.Prelude.{ℕ, ◌+◌, ◌-◌, ◌*◌, ◌/◌, ◌%◌, ◌<◌, ◌≡◌, ◌∙◌, sym, ap, [], ◌∷◌, arith}
use cain.Prelude.Order.{lt_wf}
use cain.Go.Text.{GoString}
use cain.Go.Format.{digits_acc, decimal}

-- The number that the digits spell behind `n`.
abbrev pub value : ℕ → GoString → ℕ
value = foldl (λ n c. n * 10 + (c - b'0'))

value_digits : (n : ℕ) (w : Acc ◌<◌ n) (out : GoString) → value 0 (digits_acc n w out) ≡ value n out
unfolding digits_acc
value_digits n (Acc.intro _ smaller) out =
    grind (
      arith,
      λ (h : n / 10 < n). value_digits (n / 10) (smaller (n / 10) h) ((b'0' + n % 10) ∷ out),
    )

pub value-decimal : (n : ℕ) → value 0 (decimal n) ≡ n
unfolding decimal
value-decimal n = value_digits n (lt_wf.apply n) []

pub decimal-injective : (m n : ℕ) → decimal m ≡ decimal n → m ≡ n
decimal-injective m n h = sym (value-decimal m) ∙ ap (value 0) h ∙ value-decimal n
