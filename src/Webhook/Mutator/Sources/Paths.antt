-- ===== src/Webhook/Mutator/Sources/Paths.antt =====
-- No two sources of the projected volume are written to one file.
use mathlib.Core.List.{append_cancel_left, append_cancel_right}
use cain.Prelude.{
  ℕ, ◌+◌, ◌<◌, ◌≡◌, ◌≢◌, refl, ap, sym, ◌∙◌, List, [], ◌∷◌, ◌++◌, append_assoc, arith, All,
  All-append, get_or,
}
use cain.Go.Text.{GoString, text}
use cain.Go.Text.Distinct.{IsDistinct}
use cain.Go.Format.{sprintf, decimal}
use cain.Go.Format.Decimal.{decimal-injective}
use cain.Kube.Pods.{KeyToPath, SecretProjection}
use cain.Webhook.Mutator.Sources.Laws.{AreSources}
use cain.Webhook.Mutator.Sources.{default_path, extra_path, default_sources}

-- The files of a projected volume.
abbrev pub paths_of_items : List KeyToPath → List GoString
paths_of_items [] = []
paths_of_items (i ∷ is) = i.path ∷ paths_of_items is

abbrev pub file_paths : List SecretProjection → List GoString
file_paths [] = []
file_paths (p ∷ ps) = paths_of_items p.items ++ file_paths ps

default_path_lem : (i : ℕ) → default_path i ≡ text "injected_ca-" ++ (decimal i ++ text ".crt")
unfolding default_path sprintf text
default_path_lem i = refl

extra_path_lem : (i : ℕ) → extra_path i ≡ text "injected_extra_ca-" ++ (decimal i ++ text ".crt")
unfolding extra_path sprintf text
extra_path_lem i = refl

numbered-injective :
    (before after : GoString) (i j : ℕ)
    → before ++ (decimal i ++ after) ≡ before ++ (decimal j ++ after)
    → i ≡ j
numbered-injective before after i j h = decimal-injective i j (
    append_cancel_right (decimal i) (decimal j) after
      (append_cancel_left before (decimal i ++ after) (decimal j ++ after) h))

default_path-injective : (i j : ℕ) → default_path i ≡ default_path j → i ≡ j
default_path-injective i j h =
    numbered-injective (text "injected_ca-") (text ".crt") i j
      (sym (default_path_lem i) ∙ h ∙ default_path_lem j)

extra_path-injective : (i j : ℕ) → extra_path i ≡ extra_path j → i ≡ j
extra_path-injective i j h =
    numbered-injective (text "injected_extra_ca-") (text ".crt") i j
      (sym (extra_path_lem i) ∙ h ∙ extra_path_lem j)

-- The tenth byte tells the two kinds of files apart.
names_differ : (s t : GoString) → text "injected_ca-" ++ s ≢ text "injected_extra_ca-" ++ t
unfolding text
names_differ s t h = absurd (omega (arith, ap (λ (r : GoString). get_or r 9 0) h))

default-ne-extra : (i j : ℕ) → default_path i ≢ extra_path j
default-ne-extra i j h =
    names_differ (decimal i ++ text ".crt") (decimal j ++ text ".crt")
      (sym (default_path_lem i) ∙ h ∙ extra_path_lem j)

-- The default sources are written to the files of their indices, and so are the extra ones.
pub data Numbered (path : ℕ → GoString) : ℕ → List GoString → Type 0 where
  none_left : (i : ℕ) → Numbered path i []
  numbered :
      (i : ℕ) (names : List GoString)
      → Numbered path (i + 1) names
      → Numbered path i (path i ∷ names)

pub Numbered-default :
    (name : GoString) (i : ℕ) (keys : List GoString)
    → Numbered default_path i (file_paths (default_sources name i keys))
unfolding default_sources
Numbered-default name i [] = none_left i
Numbered-default name i (key ∷ keys) = numbered i _ (Numbered-default name (i + 1) keys)

module _ (path : ℕ → GoString) (injective : (i j : ℕ) → path i ≡ path j → i ≡ j) where
  -- A file of a lower index is not among those from `i` on.
  lower_differs :
      (k i : ℕ) (names : List GoString)
      → k < i
      → Numbered path i names
      → All (λ y. path k ≢ y) names
  lower_differs k i names below (none_left _) = tt
  lower_differs k i names below (numbered _ rest n) = (
    (λ e. let same = injective k i e in absurd (omega arith)),
    lower_differs k (i + 1) rest (omega arith) n,
  )

  Numbered-IsDistinct : (i : ℕ) (names : List GoString) → Numbered path i names → IsDistinct names
  Numbered-IsDistinct i names (none_left _) = tt
  Numbered-IsDistinct i names (numbered _ rest n) =
      (lower_differs i (i + 1) rest (omega arith) n, Numbered-IsDistinct (i + 1) rest n)

pub IsDistinct-append :
    (xs ys : List GoString)
    → IsDistinct xs
    → IsDistinct ys
    → All (λ x. All (λ y. x ≢ y) ys) xs
    → IsDistinct (xs ++ ys)
IsDistinct-append [] ys dx dy apart = dy
IsDistinct-append (x ∷ xs) ys dx dy apart =
    (All-append (λ y. x ≢ y) xs ys dx.0 apart.0, IsDistinct-append xs ys dx.1 dy apart.1)

default_apart :
    (k i : ℕ) (names : List GoString)
    → Numbered extra_path i names
    → All (λ y. default_path k ≢ y) names
default_apart k i names (none_left _) = tt
default_apart k i names (numbered _ rest n) = (default-ne-extra k i, default_apart k (i + 1) rest n)

pub defaults_apart :
    (i j : ℕ) (names others : List GoString)
    → Numbered default_path i names
    → Numbered extra_path j others
    → All (λ x. All (λ y. x ≢ y) others) names
defaults_apart i j names others (none_left _) n = tt
defaults_apart i j names others (numbered _ rest m) n =
    (default_apart i j others n, defaults_apart (i + 1) j rest others m n)

pub file_paths-append :
    (ps qs : List SecretProjection) → file_paths (ps ++ qs) ≡ file_paths ps ++ file_paths qs
file_paths-append [] qs = refl
file_paths-append (p ∷ ps) qs = simp (file_paths-append ps, append_assoc)

pub Numbered-extra :
    (i : ℕ) (cas : List GoString) (sources : List SecretProjection)
    → AreSources i cas sources
    → Numbered extra_path i (file_paths sources)
Numbered-extra i [] [] a = none_left i
Numbered-extra i [] (p ∷ ps) a = absurd a
Numbered-extra i (ca ∷ cas) [] a = absurd a
Numbered-extra i (ca ∷ cas) (p ∷ ps) ((name, rest, key, e, l, k, same), more) =
    rw same (numbered i (file_paths ps) (Numbered-extra (i + 1) cas ps more))

pub default_paths-IsDistinct :
    (i : ℕ) (names : List GoString) → Numbered default_path i names → IsDistinct names
default_paths-IsDistinct = Numbered-IsDistinct default_path default_path-injective

pub extra_paths-IsDistinct :
    (i : ℕ) (names : List GoString) → Numbered extra_path i names → IsDistinct names
extra_paths-IsDistinct = Numbered-IsDistinct extra_path extra_path-injective
