-- ===== src/Go/Maps/Copy.antt =====
-- `maps.Copy` between maps: the keys of a map are distinct, and those of the source win.
use cain.Prelude.{◌≡◌, refl, ◌∙◌, inl, inr, Bool-cases, Option, none, some, [], ◌∷◌, arith}
use cain.Go.Text.{GoString, str_eq, str_eq_iff}
use cain.Go.Maps.{Entries, lookup, insert, copy, lookup-insert}

module _ {V : Type 0} where
  -- No key stands twice.
  abbrev pub IsMap : Entries V → Type 0
  IsMap [] = Unit
  IsMap ((k, v) ∷ m) = (lookup k m ≡ none) × IsMap m

  pub insert-IsMap : (k : GoString) (v : V) (m : Entries V) → IsMap m → IsMap (insert k v m)
  unfolding insert lookup
  insert-IsMap k v [] h = (refl, tt)
  insert-IsMap k v ((j, w) ∷ m) h = elim (Bool-cases (str_eq j k)) [
    | inl same ↦ rw same (ground (arith, str_eq_iff j k), h.1)
    | inr other ↦ rw other (
      ground (arith, lookup-insert k j v m, str_eq_iff j k, str_eq_iff k j),
      insert-IsMap k v m h.1,
    )
  ]

  -- What the copy holds for a key.
  abbrev either : Option V → Option V → Option V
  either none second = second
  either (some v) second = some v

  pub lookup-copy :
      (j : GoString) (dst src : Entries V)
      → IsMap src
      → lookup j (copy dst src) ≡ either (lookup j src) (lookup j dst)
  unfolding copy lookup
  lookup-copy j dst [] h = refl
  lookup-copy j dst ((k, v) ∷ src) h =
      lookup-copy j (insert k v dst) src h.1
      ∙ ground (arith, lookup-insert k j v dst, str_eq_iff k j)

  -- A copy into an empty map is the source.
  pub lookup-copy_empty :
      (j : GoString) (src : Entries V) → IsMap src → lookup j (copy [] src) ≡ lookup j src
  unfolding lookup
  lookup-copy_empty j src h = lookup-copy j [] src h ∙ nothing_more (lookup j src)
    where
      nothing_more : (o : Option V) → either o none ≡ o
      nothing_more none = refl
      nothing_more (some v) = refl
