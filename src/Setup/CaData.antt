-- ===== src/Setup/CaData.antt =====
-- The data that the validating webhook copies into secrets: those of the CA secret, for every key.
use cain.Prelude.{◌≡◌, refl, Option, none, some, List, [], ◌∷◌, arith, All, subst}
use cain.Go.Text.{GoString, str_eq_iff, str_eq_refl}
use cain.Go.Errors.{ok}
use cain.Go.Maps.{Entries, GoMap, index, lookup, insert, lookup-insert}
use cain.Go.Maps.Copy.{IsMap, insert-IsMap}
use cain.Setup.{ca_secret_data}

-- The map has, for the key, the value that the secret has.
abbrev pub IsCopied : GoMap GoString → Entries GoString → GoString → Type 0
IsCopied stored copied key =
    (value : GoString) × (index stored key ≡ some value) × (lookup key copied ≡ some value)

module _ (stored : GoMap GoString) where
  insert-IsCopied :
      (key value other : GoString) (acc : Entries GoString)
      → index stored key ≡ some value
      → IsCopied stored acc other
      → IsCopied stored (insert key value acc) other
  insert-IsCopied key value other acc here (v, there, found) =
      (v, there, ground (arith, lookup-insert key other value acc, str_eq_iff key other))

  next_key :
      (key : GoString) (keys : List GoString) (acc copied : Entries GoString) (x : Option GoString)
      → index stored key ≡ x
      → ca_secret_data stored (key ∷ keys) acc ≡ ok copied
      → (value : GoString) × (index stored key ≡ some value)
        × (ca_secret_data stored keys (insert key value acc) ≡ ok copied)
  unfolding ca_secret_data
  next_key key keys acc copied none e h = absurd (ground arith)
  next_key key keys acc copied (some value) e h = (value, e, ground arith)

  ca_secret_data-kept :
      (keys : List GoString) (acc copied : Entries GoString) (other : GoString)
      → ca_secret_data stored keys acc ≡ ok copied
      → IsCopied stored acc other
      → IsCopied stored copied other
  ca_secret_data-kept [] acc copied other h c =
      let same : acc ≡ copied = unfold ca_secret_data in cc h in
      subst (λ (m : Entries GoString). IsCopied stored m other) same c
  ca_secret_data-kept (key ∷ keys) acc copied other h c =
      let (value, here, rest) = next_key key keys acc copied _ refl h in
      ca_secret_data-kept keys (insert key value acc) copied other rest
        (insert-IsCopied key value other acc here c)

  -- A success has, for every key of the CA secret, the value that the secret has.
  pub ca_secret_data-IsCopied :
      (keys : List GoString) (acc copied : Entries GoString)
      → ca_secret_data stored keys acc ≡ ok copied
      → All (IsCopied stored copied) keys
  ca_secret_data-IsCopied [] acc copied h = tt
  ca_secret_data-IsCopied (key ∷ keys) acc copied h =
      let (value, here, rest) = next_key key keys acc copied _ refl h in
      (
        ca_secret_data-kept keys (insert key value acc) copied key rest
            (value, here, ground (arith, lookup-insert key key value acc, str_eq_refl key)),
        ca_secret_data-IsCopied keys (insert key value acc) copied rest,
      )

  pub ca_secret_data-IsMap :
      (keys : List GoString) (acc copied : Entries GoString)
      → ca_secret_data stored keys acc ≡ ok copied
      → IsMap acc
      → IsMap copied
  ca_secret_data-IsMap [] acc copied h m =
      let same : acc ≡ copied = unfold ca_secret_data in cc h in subst IsMap same m
  ca_secret_data-IsMap (key ∷ keys) acc copied h m =
      let (value, here, rest) = next_key key keys acc copied _ refl h in
      ca_secret_data-IsMap keys (insert key value acc) copied rest (insert-IsMap key value acc m)
