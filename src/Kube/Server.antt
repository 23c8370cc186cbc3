-- ===== src/Kube/Server.antt =====
-- What the API server documents about secrets: the store that it keeps, and what its answers say of it.
-- Nobody else changes the secrets of the store meanwhile; so the secret that cert-manager stores for a
-- certificate, some time after the certificate has been created, is not part of it.
use cain.Prelude.{
  ◌≡◌, ◌≢◌, ◌⊎◌, inl, inr, Bool-cases, ◌&&◌, arith, true, false, Option, none, some, if◌then◌else◌,
}
use cain.Go.Text.{GoString, str_eq, str_eq_sound}
use cain.Go.Errors.{ForeignError}
use cain.Kube.Secrets.{Secret, SecretClient}

-- The secret of a name in a namespace, if there is one.
abbrev pub Store : Type 0
Store = GoString → GoString → Option Secret

unfoldable pub set : GoString → GoString → Option Secret → Store → Store
set ns name value m ns' name' = if str_eq ns ns' && str_eq name name' then value else m ns' name'

abbrev pub put : GoString → Secret → Store → Store
put ns s = set ns s.name (some s)

abbrev pub remove : GoString → GoString → Store → Store
remove ns name = set ns name none

-- The answer of a creation, with the store after it. Without an error, the name was free, and the secret is
-- there now. If the error says that the object exists, it does, and nothing has changed. After any other
-- error, as that of a lost connection, the secret may have been stored or not.
abbrev pub CreateAnswer : Store → GoString → Secret → Option ForeignError → Store → Type 0
CreateAnswer m ns s none m' = (m ns s.name ≡ none) × (m' ≡ put ns s m)
CreateAnswer m ns s (some e) m' = elim e.already_exists [
  | true ↦ (m ns s.name ≢ none) × (m' ≡ m)
  | false ↦ (m' ≡ m) ⊎ ((m ns s.name ≡ none) × (m' ≡ put ns s m))
]

-- The answer of a deletion, likewise. The secrets have no finalizers, so that one that is deleted is gone.
abbrev pub DeleteAnswer : Store → GoString → GoString → Option ForeignError → Store → Type 0
DeleteAnswer m ns name none m' = (m ns name ≢ none) × (m' ≡ remove ns name m)
DeleteAnswer m ns name (some e) m' = elim e.not_found [
  | true ↦ (m ns name ≡ none) × (m' ≡ m)
  | false ↦ (m' ≡ m) ⊎ (m' ≡ remove ns name m)
]

pub record IsServer {S : Type 0} (client : SecretClient S) (view : S → Store) : Type 0 where
  pub creation :
      (ns : GoString) (s : Secret) (api : S)
      → CreateAnswer (view api) ns s (client.create ns s api).0 (view (client.create ns s api).1)
  pub deletion :
      (ns name : GoString) (api : S)
      → DeleteAnswer
          (view api)
          ns
          name
          (client.delete ns name api).0
          (view (client.delete ns name api).1)

-- A change of one secret: what is seen at a name after it.
pub set-cases :
    (ns name : GoString) (value : Option Secret) (m : Store) (ns' name' : GoString)
    → ((ns ≡ ns') × (name ≡ name') × (set ns name value m ns' name' ≡ value))
      ⊎ (set ns name value m ns' name' ≡ m ns' name')
unfolding set
set-cases ns name value m ns' name' = elim (Bool-cases (str_eq ns ns')) [
  | inr other ↦ inr (ground arith)
  | inl here ↦ elim (Bool-cases (str_eq name name')) [
    | inr other ↦ inr (ground arith)
    | inl same ↦ inl (str_eq_sound ns ns' here, str_eq_sound name name' same, ground arith)
  ]
]
