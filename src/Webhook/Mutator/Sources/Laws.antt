-- ===== src/Webhook/Mutator/Sources/Laws.antt =====
-- Which extra secrets are accepted, and the source that each key and each extra secret becomes.
use cain.Prelude.{
  ℕ, ◌+◌, ◌≡◌, refl, sym, ap, ◌⊎◌, inl, inr, none, some, List, [], ◌∷◌, ◌++◌, All, subst,
}
use cain.Go.Format.{sprintf, decimal}
use cain.Go.Text.{GoString, text}
use cain.Go.Text.Split.{Lacks, Lacks-cases, split_lacking, split_at}
use cain.Go.Exec.{returns, panics}
use cain.Kube.Pods.{SecretProjection}
use cain.Webhook.Mutator.Sources.{
  projection, default_path, extra_path, default_sources, secret_and_key, extra_sources, index_panic,
}

-- The source is one key of the secret, as the file of that name.
abbrev pub IsSource : GoString → GoString → GoString → SecretProjection → Type 0
IsSource name key file p =
    p ≡ record { name = name; items = record { key = key; path = file } ∷ [] }

-- The file of the key at that place of the default secret.
abbrev pub default_file : ℕ → GoString
default_file i = text "injected_ca-" ++ (decimal i ++ text ".crt")

-- One source of the secret for each of the keys, in their order, with that key and the file of its place.
abbrev pub AreDefaults : GoString → ℕ → List GoString → List SecretProjection → Type 0
AreDefaults name i [] [] = Unit
AreDefaults name i [] (p ∷ ps) = ⊥
AreDefaults name i (key ∷ keys) [] = ⊥
AreDefaults name i (key ∷ keys) (p ∷ ps) =
    IsSource name key (default_file i) p × AreDefaults name (i + 1) keys ps

default_file_lem : (i : ℕ) → default_path i ≡ default_file i
unfolding default_path sprintf text
default_file_lem i = refl

pub default_sources-AreDefaults :
    (name : GoString) (i : ℕ) (keys : List GoString)
    → AreDefaults name i keys (default_sources name i keys)
unfolding default_sources
default_sources-AreDefaults name i [] = tt
default_sources-AreDefaults name i (key ∷ keys) = (
  ap (λ (file : GoString). projection name key file) (default_file_lem i),
  default_sources-AreDefaults name (i + 1) keys,
)

-- An extra secret without a slash has no second part.
secret_and_key_lacking : (ca : GoString) → Lacks b'/' ca → secret_and_key ca ≡ none
unfolding secret_and_key
secret_and_key_lacking ca h = rw (split_lacking b'/' ca h, secret_and_key)

-- `key` is `s` up to its first slash, or all of `s`.
abbrev pub IsKeyOf : GoString → GoString → Type 0
IsKeyOf s key = Lacks b'/' key × ((s ≡ key) ⊎ ((more : GoString) × (s ≡ key ++ b'/' ∷ more)))

-- The name is the text before the first slash, and the key the part behind it.
secret_and_key_at :
    (name s : GoString)
    → Lacks b'/' name
    → (key : GoString) × IsKeyOf s key × (secret_and_key (name ++ b'/' ∷ s) ≡ some (name, key))
unfolding secret_and_key
secret_and_key_at name s h = elim (Lacks-cases b'/' s) [
  | inl lacks ↦ (
    s,
    (lacks, inl refl),
    rw (split_at b'/' name s h, split_lacking b'/' s lacks, secret_and_key),
  )
  | inr (key, more, e, lacks) ↦ (
    key,
    (lacks, inr (more, e)),
    rw (split_at b'/' name s h, e, split_at b'/' key more lacks, secret_and_key),
  )
]

-- The sources of accepted extra secrets: each with its name, its key and the file of its place.
abbrev pub AreSources : ℕ → List GoString → List SecretProjection → Type 0
AreSources i [] [] = Unit
AreSources i [] (p ∷ ps) = ⊥
AreSources i (ca ∷ cas) [] = ⊥
AreSources i (ca ∷ cas) (p ∷ ps) =
    ((name : GoString) × (rest : GoString) × (key : GoString) × (ca ≡ name ++ b'/' ∷ rest)
      × Lacks b'/' name
      × IsKeyOf rest key
      × IsSource name key (extra_path i) p)
    × AreSources (i + 1) cas ps

pub extra_sources_decided :
    (i : ℕ) (cas : List GoString)
    → ((sources : List SecretProjection) × (extra_sources i cas ≡ returns sources)
        × AreSources i cas sources)
      ⊎ ((why : GoString) × (extra_sources i cas ≡ panics why)
          × ¬ (All (λ ca. ¬ (Lacks b'/' ca)) cas))
unfolding extra_sources
extra_sources_decided i [] = inl ([], refl, tt)
extra_sources_decided i (ca ∷ cas) = elim (Lacks-cases b'/' ca) [
  | inl lacks ↦
      (let e = secret_and_key_lacking ca lacks in
        inr (index_panic, rw (e, extra_sources), λ h. h.0 lacks))
  | inr (name, rest, e, lacks) ↦
      (let (key, is_key, found) = secret_and_key_at name rest lacks in
        let pair = subst (λ x. secret_and_key x ≡ some (name, key)) (sym e) found in
        elim (extra_sources_decided (i + 1) cas) [
          | inl (sources, h, are) ↦ inl (
            projection name key (extra_path i) ∷ sources,
            rw (pair, h, extra_sources),
            ((name, rest, key, e, lacks, is_key, refl), are),
          )
          | inr (why, h, lack) ↦ inr (why, rw (pair, h, extra_sources), λ a. lack a.1)
        ])
]
