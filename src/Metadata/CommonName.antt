-- ===== src/Metadata/CommonName.antt =====
-- `JVMCommonName`: at most 63 bytes, the last ones of the name that it shortens.
use cain.Prelude.{
  ℕ, ◌-◌, ◌<◌, ◌≤◌, ◌≡◌, refl, sym, ap, ◌∙◌, ◌⊎◌, inl, inr, Bool-cases, Option, none, some, [], ◌∷◌,
  ◌++◌, arith, ltb, length, take, append-nil, length-drop, take-append-drop, subst,
}
use cain.Go.Text.{GoString, text, str_eq}
use cain.Go.Maps.{index}
use cain.Go.Format.{sprintf}
use cain.Kube.Meta.{ObjectMeta}
use cain.Metadata.{Extractor, last_bytes, jvm_common_name, max_cn_length}

-- `s` is the name `full` that fits in `n` bytes, or the last `n` bytes of one that does not.
abbrev pub IsShortened : ℕ → GoString → GoString → Type 0
IsShortened n full s =
    (length full ≤ n) × (s ≡ full)
    ⊎ (before : GoString) × (full ≡ before ++ s) × (n < length full) × (length s ≡ n)

last_bytes-IsShortened : (n : ℕ) (full : GoString) → IsShortened n full (last_bytes n full)
unfolding last_bytes
last_bytes-IsShortened n full = elim (Bool-cases (ltb n (length full))) [
  | inl long ↦ rw long (
      inr (
        take (length full - n) full,
        sym (take-append-drop (length full - n) full),
        ground arith,
        ground (arith, length-drop (length full - n) full),
      ))
  | inr short ↦ rw short (inl (ground arith, refl))
]

-- The name that is shortened: the annotation, or `<root>.<namespace>.<domain>`, where the domain is the
-- DNS domain of the configuration, if there is one.
abbrev pub full_name : Extractor → ObjectMeta → GoString → GoString → GoString
full_name e obj root namespace = elim (index obj.annotations e.jvm_common_name_annotation) [
  | some value ↦ value
  | none ↦ elim e.dns_domain [
    | [] ↦ root ++ b'.' ∷ (namespace ++ b'.' ∷ e.domain)
    | c ∷ d ↦ root ++ b'.' ∷ (namespace ++ b'.' ∷ e.dns_domain)
  ]
]

three_parts :
    (a b c : GoString)
    → sprintf (text "%s.%s.%s") (a ∷ b ∷ c ∷ []) ≡ a ++ b'.' ∷ (b ++ b'.' ∷ (c ++ []))
unfolding sprintf text
three_parts a b c = refl

full_of_domain :
    (root namespace domain : GoString)
    → sprintf (text "%s.%s.%s") (root ∷ namespace ∷ domain ∷ [])
      ≡ root ++ b'.' ∷ (namespace ++ b'.' ∷ domain)
full_of_domain root namespace domain =
    three_parts root namespace domain
    ∙ ap (λ (d : GoString). root ++ b'.' ∷ (namespace ++ b'.' ∷ d)) (append-nil domain)

common_name_at :
    (e : Extractor) (obj : ObjectMeta) (root namespace dns : GoString) (value : Option GoString)
    → e.dns_domain ≡ dns
    → index obj.annotations e.jvm_common_name_annotation ≡ value
    → jvm_common_name e obj root namespace
      ≡ last_bytes max_cn_length (full_name e obj root namespace)
unfolding jvm_common_name str_eq
common_name_at e obj root namespace dns (some v) d a = ground arith
common_name_at e obj root namespace [] none d a =
    ground (arith, full_of_domain root namespace e.domain)
common_name_at e obj root namespace (c ∷ dns) none d a =
    ground (arith, full_of_domain root namespace (c ∷ dns))

-- The common name of a certificate is the whole name, the annotation or `<root>.<namespace>.<domain>`,
-- where that has at most 63 bytes, and else its last 63 bytes.
pub jvm_common_name-IsShortened :
    (e : Extractor) (obj : ObjectMeta) (root namespace : GoString)
    → IsShortened max_cn_length
        (full_name e obj root namespace)
        (jvm_common_name e obj root namespace)
jvm_common_name-IsShortened e obj root namespace =
    subst (IsShortened max_cn_length (full_name e obj root namespace))
      (sym (common_name_at e obj root namespace _ _ refl refl))
      (last_bytes-IsShortened max_cn_length (full_name e obj root namespace))
