-- ===== src/Webhook/Config/CaSecrets.antt =====
-- `CASecret.UnmarshalText`: the format `<secret name>/<key>[,<key>...]`.
use cain.Prelude.{
  ℕ, ◌≡◌, ◌≢◌, refl, ap, ◌∙◌, ◌⊎◌, inl, inr, Option, none, some, List, [], ◌∷◌, ◌++◌, arith, All,
  All-append,
}
use cain.Go.Text.{GoString, split, join}
use cain.Go.Text.Split.{Lacks, Lacks-cases, split_lacking, split_at, split-join, split-ne-nil}
use cain.Webhook.Config.{CaSecret, unmarshal_text, err_misformed_secret_name}

-- `s` is `name/value` with no other slash.
pub record IsPair (s name value : GoString) : Type 0 where
  pub parts : s ≡ name ++ b'/' ∷ value
  pub name_lacks : Lacks b'/' name
  pub value_lacks : Lacks b'/' value

split_pair : (s name value : GoString) → IsPair s name value → split b'/' s ≡ name ∷ value ∷ []
split_pair s name value p =
    ap (split b'/') p.parts
    ∙ split_at b'/' name value p.name_lacks
    ∙ ap (λ (r : List GoString). name ∷ r) (split_lacking b'/' value p.value_lacks)

pub unmarshal_pair :
    (cs : CaSecret) (s name value : GoString)
    → IsPair s name value
    → unmarshal_text cs s ≡ (record { name = name; keys = split b',' value }, none)
unfolding unmarshal_text
unmarshal_pair cs s name value p = rw (split_pair s name value p, unmarshal_text)

-- A text of no slash, or of two and more, is refused, and the receiver stays.
refused_lacking :
    (cs : CaSecret) (s : GoString)
    → Lacks b'/' s
    → unmarshal_text cs s ≡ (cs, some err_misformed_secret_name)
unfolding unmarshal_text
refused_lacking cs s h = rw (split_lacking b'/' s h, unmarshal_text)

refused_more :
    (cs : CaSecret) (a b : GoString) (rest : List GoString) (s : GoString)
    → rest ≢ []
    → split b'/' s ≡ a ∷ b ∷ rest
    → unmarshal_text cs s ≡ (cs, some err_misformed_secret_name)
unfolding unmarshal_text
refused_more cs a b [] s more e = absurd (more refl)
refused_more cs a b (c ∷ rest) s more e = rw (e, unmarshal_text)

refused_two :
    (cs : CaSecret) (s a b c : GoString)
    → s ≡ a ++ b'/' ∷ (b ++ b'/' ∷ c)
    → Lacks b'/' a
    → Lacks b'/' b
    → unmarshal_text cs s ≡ (cs, some err_misformed_secret_name)
refused_two cs s a b c e ha hb = refused_more cs a b (split b'/' c) s (split-ne-nil b'/' c) (
    ap (split b'/') e
    ∙ split_at b'/' a _ ha
    ∙ ap (λ (r : List GoString). a ∷ r) (split_at b'/' b c hb))

-- A text is accepted exactly if it has one slash: then the name is what stands before it, and the keys
-- are what stands behind it, cut at its commas. Any other text gives the error, and the receiver stays
-- as it was.
pub unmarshal_text_decided :
    (cs : CaSecret) (s : GoString)
    → ((name : GoString) × (value : GoString) × IsPair s name value
        × (unmarshal_text cs s ≡ (record { name = name; keys = split b',' value }, none)))
      ⊎ (((name value : GoString) → ¬ (IsPair s name value))
          × (unmarshal_text cs s ≡ (cs, some err_misformed_secret_name)))
unmarshal_text_decided cs s = elim (Lacks-cases b'/' s) [
  | inl lacks ↦
      (let h = refused_lacking cs s lacks in
        inr ((λ name value p. let g = unmarshal_pair cs s name value p in cc (h, g)), h))
  | inr (name, rest, e, name_lacks) ↦ elim (Lacks-cases b'/' rest) [
    | inl lacks ↦
        (let p : IsPair s name rest = record {
          parts = e;
          name_lacks = name_lacks;
          value_lacks = lacks;
        } in
          inl (name, rest, p, unmarshal_pair cs s name rest p))
    | inr (value, more, e', value_lacks) ↦
        (let h =
            refused_two cs s name value more (e ∙ ap (λ (r : GoString). name ++ b'/' ∷ r) e')
              name_lacks value_lacks in
          inr ((λ n v p. let g = unmarshal_pair cs s n v p in cc (h, g)), h))
  ]
]

join-Lacks :
    (p : GoString) (ps : List GoString)
    → All (Lacks b'/') (p ∷ ps)
    → Lacks b'/' (join b',' (p ∷ ps))
unfolding join
join-Lacks p [] h = h.0
join-Lacks p (q ∷ ps) h =
    All-append (λ c. c ≢ b'/') p (b',' ∷ join b',' (q ∷ ps)) h.0 (comma, join-Lacks q ps h.1)
  where
    comma : ◌≢◌ {A = ℕ} b',' b'/'
    comma = omega arith

-- Every secret with a name and at least one key is read back from its text, if no slash stands in them
-- and no comma in a key.
pub unmarshal_text-join :
    (cs : CaSecret) (name key : GoString) (keys : List GoString)
    → Lacks b'/' name
    → All (Lacks b'/') (key ∷ keys)
    → All (Lacks b',') (key ∷ keys)
    → unmarshal_text cs (name ++ b'/' ∷ join b',' (key ∷ keys))
      ≡ (record { name = name; keys = key ∷ keys }, none)
unmarshal_text-join cs name key keys n slashes commas =
    unmarshal_pair cs _ name (join b',' (key ∷ keys))
      (record { parts = refl; name_lacks = n; value_lacks = join-Lacks key keys slashes })
    ∙ ap
        (λ (ks : List GoString).
          let c : CaSecret = record { name = name; keys = ks } in let o : Option _ = none in (c, o))
        (split-join b',' key keys commas)
