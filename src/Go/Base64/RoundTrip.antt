-- ===== src/Go/Base64/RoundTrip.antt =====
-- The decoding of RFC 4648 undoes the encoder.
use cain.Prelude.{
  ℕ, ◌+◌, ◌-◌, ◌*◌, ◌/◌, ◌%◌, ◌<◌, ◌≡◌, refl, false, [], ◌∷◌, arith, All, ltb, nat_eq,
  if◌then◌else◌,
}
use cain.Go.Text.{GoString}
use cain.Go.Base64.{symbol, padding, encode}

-- The six bits of a character of the alphabet.
six_bits : ℕ → ℕ
six_bits c =
    if ltb c b'+'
    then 0
    else if nat_eq c b'+'
    then 62
    else if nat_eq c b'/'
    then 63
    else if ltb c b'A'
    then c - b'0' + 52
    else if ltb c b'a'
    then c - b'A'
    else c - b'a' + 26

-- Groups of four characters, of which the last may end in padding.
pub decode : GoString → GoString
decode (a ∷ b ∷ c ∷ d ∷ rest) =
    let x = six_bits a * 4 + six_bits b / 16 in
    let y = six_bits b % 16 * 16 + six_bits c / 4 in
    let z = six_bits c % 4 * 64 + six_bits d in
    let more = decode rest in
    if nat_eq c padding then x ∷ [] else if nat_eq d padding then x ∷ y ∷ [] else x ∷ y ∷ z ∷ more
decode s = []

six_bits-symbol : (n : ℕ) → n < 64 → six_bits (symbol n) ≡ n
unfolding six_bits symbol
six_bits-symbol n h = ground arith

symbol-ne-padding : (n : ℕ) → n < 64 → nat_eq (symbol n) padding ≡ false
unfolding symbol
symbol-ne-padding n h = ground arith

abbrev pub AreBytes : GoString → Type 0
AreBytes = All (λ c. c < 256)

pub decode-encode : (s : GoString) → AreBytes s → decode (encode s) ≡ s
unfolding decode encode
decode-encode [] h = refl
decode-encode (a ∷ []) h = ground (arith, six_bits-symbol (a / 4), six_bits-symbol (a % 4 * 16))
decode-encode (a ∷ b ∷ []) h =
    let pad = symbol-ne-padding (b % 16 * 4) (omega arith) in
    rw pad (
      ground (
        arith,
        six_bits-symbol (a / 4),
        six_bits-symbol (a % 4 * 16 + b / 16),
        six_bits-symbol (b % 16 * 4),
      ))
decode-encode (a ∷ b ∷ c ∷ rest) h =
    let pad = symbol-ne-padding (b % 16 * 4 + c / 64) (omega arith) in
    let pad' = symbol-ne-padding (c % 64) (omega arith) in
    rw (pad, pad')
      (ground (
        arith,
        six_bits-symbol (a / 4),
        six_bits-symbol (a % 4 * 16 + b / 16),
        six_bits-symbol (b % 16 * 4 + c / 64),
        six_bits-symbol (c % 64),
        decode-encode rest h.1.1.1,
      ))
