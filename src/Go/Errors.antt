-- ===== src/Go/Errors.antt =====
-- Go error values: those that the program makes and wraps, and those of the client libraries.
use cain.Prelude.{◌≡◌, refl, Bool, Option, List, []}
use cain.Go.Text.{GoString}

-- An error of a client library, by what the program asks of it: `kErrors.IsAlreadyExists`,
-- `kErrors.IsNotFound`, and the message of its `*kErrors.StatusError`, if it is one.
pub record ForeignError : Type 0 where
  pub already_exists : Bool
  pub not_found : Bool
  pub status : Option GoString

-- `errors.New(text)`, an error of a library, `fmt.Errorf(format, args..., err)` with `%w`, and what
-- `errors.Join` makes of the errors that are not nil.
mutual
  pub data Error : Type 0 where
    errors_new : GoString → Error
    foreign : ForeignError → Error
    errorf : GoString → List GoString → Error → Error
    joined : Errors → Error

  pub data Errors : Type 0 where
    end : Errors
    entry : Error → Errors → Errors

-- The end of the chain that `errors.Unwrap` follows.
abbrev pub cause : Error → Error
cause (errors_new t) = errors_new t
cause (foreign e) = foreign e
cause (errorf f args e) = cause e
cause (joined es) = joined es

-- A Go pair `(value, error)` where the value is used only without an error.
pub data Result {ℓ} (A : Type ℓ) : Type ℓ where
  ok : A → Result A
  err : Error → Result A

infixl 5 ◌>>=◌
abbrev pub ◌>>=◌ {ℓ κ} : {A : Type ℓ} {B : Type κ} → Result A → (A → Result B) → Result B
ok a >>= f = f a
err e >>= f = err e

-- `if err != nil { return nil, fmt.Errorf(format + ": %w", err) }`
abbrev pub wrap {ℓ} : {A : Type ℓ} → GoString → List GoString → Result A → Result A
wrap format args (ok a) = ok a
wrap format args (err e) = err (errorf format args e)

-- A success of two calls in a row, the first of which may be wrapped, is a success of each.
pub bind-ok {ℓ κ} :
    {A : Type ℓ} {B : Type κ} (r : Result A) (f : A → Result B) (b : B)
    → (r >>= f) ≡ ok b
    → (a : A) × (r ≡ ok a) × (f a ≡ ok b)
bind-ok (ok a) f b h = (a, refl, h)
bind-ok (err e) f b h = absurd (cc h)

pub bind-wrap-ok {ℓ κ} :
    {A : Type ℓ} {B : Type κ} (format : GoString) (r : Result A) (f : A → Result B) (b : B)
    → (wrap format [] r >>= f) ≡ ok b
    → (a : A) × (r ≡ ok a) × (f a ≡ ok b)
bind-wrap-ok format (ok a) f b h = (a, refl, h)
bind-wrap-ok format (err e) f b h = absurd (cc h)
