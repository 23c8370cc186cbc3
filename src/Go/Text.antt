-- ===== src/Go/Text.antt =====
-- Go strings: sequences of bytes, with `==`, slices, `strings.Split` and `strings.Join`.
pub mod Split
pub mod Distinct
use Prim.Native.Char.{code}
use cain.Prelude.{
  ℕ, ◌≡◌, refl, ◌↔◌, Bool, true, false, ◌&&◌, ◌||◌, List, [], ◌∷◌, ◌++◌, String, arith, nat_eq, ltb,
  if◌then◌else◌,
}

abbrev pub GoString : Type 0
GoString = List ℕ

-- A string literal of the program. All of them are ASCII, so code points are bytes.
unfoldable pub text : String → GoString
text String.[] = []
text (String.◌∷◌ c s) = code c ∷ text s

-- `s == t`
unfoldable pub str_eq : GoString → GoString → Bool
str_eq [] [] = true
str_eq [] (d ∷ t) = false
str_eq (c ∷ s) [] = false
str_eq (c ∷ s) (d ∷ t) = nat_eq c d && str_eq s t

pub str_eq_refl : (s : GoString) → str_eq s s ≡ true
unfolding str_eq
str_eq_refl [] = refl
str_eq_refl (c ∷ s) = ground (arith, str_eq_refl s)

pub str_eq_sound : (s t : GoString) → str_eq s t ≡ true → s ≡ t
unfolding str_eq
str_eq_sound [] [] h = refl
str_eq_sound [] (d ∷ t) h = cc
str_eq_sound (c ∷ s) [] h = cc
str_eq_sound (c ∷ s) (d ∷ t) h = ground (arith, str_eq_sound s t)

pub str_eq_iff : (s t : GoString) → (str_eq s t ≡ true) ↔ (s ≡ t)
str_eq_iff s t = (str_eq_sound s t, λ e. rw e (str_eq_refl t))

-- `strings.Split(s, sep)` for a separator of one byte. There is always a first part.
unfoldable pub split_from : ℕ → GoString → GoString → List GoString
split_from sep cur [] = cur ∷ []
split_from sep cur (c ∷ s) = elim (nat_eq c sep) [
  | true ↦ cur ∷ split_from sep [] s
  | false ↦ split_from sep (cur ++ c ∷ []) s
]

unfoldable pub split : ℕ → GoString → List GoString
unfolding split_from
split sep s = split_from sep [] s

-- `strings.Join(parts, sep)` for a separator of one byte.
unfoldable pub join : ℕ → List GoString → GoString
join sep [] = []
join sep (p ∷ []) = p
join sep (p ∷ q ∷ ps) = p ++ sep ∷ join sep (q ∷ ps)

-- `unicode.IsSpace` of an ASCII byte.
abbrev pub is_space : ℕ → Bool
is_space c = nat_eq c 32 || (ltb 8 c && ltb c 14)

trim_left : GoString → GoString
trim_left [] = []
trim_left (c ∷ s) = if is_space c then trim_left s else c ∷ s

trim_right : GoString → GoString
trim_right [] = []
trim_right (c ∷ s) =
    let rest = trim_right s in
    elim rest [ [] ↦ if is_space c then [] else c ∷ [] | d ∷ more ↦ c ∷ d ∷ more ]

-- `strings.TrimSpace` of an ASCII string.
unfoldable pub trim_space : GoString → GoString
unfolding trim_left trim_right
trim_space s = trim_right (trim_left s)
