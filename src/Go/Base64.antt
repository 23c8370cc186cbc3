-- ===== src/Go/Base64.antt =====
-- `base64.StdEncoding`: `EncodedLen`, `Encode`, and the decoding that RFC 4648 gives it.
pub mod Lengths
pub mod RoundTrip
use cain.Prelude.{ℕ, ◌+◌, ◌-◌, ◌*◌, ◌/◌, ◌%◌, ◌≡◌, refl, [], ◌∷◌, ltb, nat_eq, if◌then◌else◌}
use cain.Go.Text.{GoString, text}

unfoldable pub encoded_len : ℕ → ℕ
encoded_len n = (n + 2) / 3 * 4

-- The character of six bits.
unfoldable pub symbol : ℕ → ℕ
symbol n =
    if ltb n 26
    then b'A' + n
    else if ltb n 52
    then b'a' + (n - 26)
    else if ltb n 62
    then b'0' + (n - 52)
    else if nat_eq n 62
    then b'+'
    else b'/'

abbrev pub padding : ℕ
padding = b'='

unfoldable pub encode : GoString → GoString
encode [] = []
encode (a ∷ []) = symbol (a / 4) ∷ symbol (a % 4 * 16) ∷ padding ∷ padding ∷ []
encode (a ∷ b ∷ []) =
    symbol (a / 4) ∷ symbol (a % 4 * 16 + b / 16) ∷ symbol (b % 16 * 4) ∷ padding ∷ []
encode (a ∷ b ∷ c ∷ rest) =
    symbol (a / 4)
    ∷ symbol (a % 4 * 16 + b / 16)
    ∷ symbol (b % 16 * 4 + c / 64)
    ∷ symbol (c % 64)
    ∷ encode rest

encode_examples :
    (encode (text "Man") ≡ text "TWFu")
    × (encode (text "Ma") ≡ text "TWE=")
    × (encode (text "changeit") ≡ text "Y2hhbmdlaXQ=")
unfolding encode symbol text
encode_examples = (refl, refl, refl)
