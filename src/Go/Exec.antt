-- ===== src/Go/Exec.antt =====
-- Running code: a call returns, panics, or runs forever. `Go S` is code that also changes a state.
use cain.Go.Text.{GoString}

-- `diverges` is also the answer of a loop that is given too little fuel.
pub data Exec {ℓ} (A : Type ℓ) : Type ℓ where
  returns : A → Exec A
  panics : GoString → Exec A
  diverges : Exec A

abbrev pub Go : Type 0 → Type 0 → Type 0
Go S A = S → Exec (A × S)

abbrev pub pure : {S A : Type 0} → A → Go S A
pure a s = returns (a, s)

abbrev pub panic : {S A : Type 0} → GoString → Go S A
panic why s = panics why

infixl 5 ◌>>=◌ ◌>>◌
abbrev pub ◌>>=◌ : {S A B : Type 0} → Go S A → (A → Go S B) → Go S B
◌>>=◌ m f s = elim (m s) [
  | returns (a, s') ↦ f a s'
  | panics why ↦ panics why
  | diverges ↦ diverges
]

abbrev pub ◌>>◌ : {S B : Type 0} → Go S (Unit {0}) → Go S B → Go S B
m >> k = m >>= λ _. k
