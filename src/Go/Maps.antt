-- ===== src/Go/Maps.antt =====
-- Go maps with string keys: `none` is the nil map. The order of entries is never looked at.
pub mod Copy
use cain.Prelude.{◌≡◌, refl, Option, none, some, List, [], ◌∷◌, arith, if◌then◌else◌}
use cain.Go.Text.{GoString, str_eq, str_eq_iff}

abbrev pub Entries {ℓ} : Type ℓ → Type ℓ
Entries V = List (GoString × V)

abbrev pub GoMap {ℓ} : Type ℓ → Type ℓ
GoMap V = Option (Entries V)

module _ {ℓ} {V : Type ℓ} where
  unfoldable pub lookup : GoString → Entries V → Option V
  lookup k [] = none
  lookup k ((j, v) ∷ m) = if str_eq j k then some v else lookup k m

  -- `m[k] = v`
  unfoldable pub insert : GoString → V → Entries V → Entries V
  insert k v [] = (k, v) ∷ []
  insert k v ((j, w) ∷ m) = if str_eq j k then (k, v) ∷ m else (j, w) ∷ insert k v m

  -- `v, ok := m[k]`; a nil map has no key.
  unfoldable pub index : GoMap V → GoString → Option V
  unfolding lookup
  index none k = none
  index (some m) k = lookup k m

  -- `maps.Copy(dst, src)`
  unfoldable pub copy : Entries V → Entries V → Entries V
  unfolding insert
  copy dst [] = dst
  copy dst ((k, v) ∷ src) = copy (insert k v dst) src

  pub lookup-insert :
      (k j : GoString) (v : V) (m : Entries V)
      → lookup j (insert k v m) ≡ (if str_eq k j then some v else lookup j m)
  unfolding lookup insert
  lookup-insert k j v [] = refl
  lookup-insert k j v ((i, w) ∷ m) =
      ground (arith, str_eq_iff k j, str_eq_iff i k, str_eq_iff i j, lookup-insert k j v m)
