-- ===== src/Go/Base64/Lengths.antt =====
-- How long an encoded text is.
use cain.Prelude.{◌+◌, ◌<◌, ◌*◌, ◌/◌, ◌≡◌, ◌≢◌, refl, [], ◌∷◌, arith, length}
use cain.Go.Text.{GoString}
use cain.Go.Base64.{encode, encoded_len}

-- The encoder fills a buffer of `EncodedLen` bytes exactly.
pub length-encode : (s : GoString) → length (encode s) ≡ encoded_len (length s)
unfolding encode encoded_len
length-encode [] = omega arith
length-encode (a ∷ []) = omega arith
length-encode (a ∷ b ∷ []) = omega arith
length-encode (a ∷ b ∷ c ∷ rest) =
    let rest_length : length (encode rest) ≡ (length rest + 2) / 3 * 4 = length-encode rest in
    omega arith

pub encoded-longer : (s : GoString) → s ≢ [] → length s < length (encode s)
encoded-longer [] h = absurd (h refl)
encoded-longer (c ∷ s) h = unfold encoded_len in omega (arith, length-encode (c ∷ s))
