-- ===== src/Kube/Secrets.antt =====
-- `corev1.Secret`, and the part of the client that creates and deletes secrets and certificates.
use cain.Prelude.{Bool, true, false, Option, none, some, List}
use cain.Go.Text.{GoString}
use cain.Go.Errors.{ForeignError}
use cain.Go.Maps.{Entries}
use cain.Kube.Meta.{OwnerReference}

pub record Secret : Type 0 where
  pub name : GoString
  pub namespace : GoString
  pub contents : Entries GoString
  pub owner_references : List OwnerReference

-- The calls change the state `S` of the API server and return an error, or `none`.
pub record SecretClient (S : Type 0) : Type 0 where
  -- `Secrets(namespace).Create`
  pub create : GoString → Secret → S → Option ForeignError × S
  -- `Secrets(namespace).Delete` of a name
  pub delete : GoString → GoString → S → Option ForeignError × S

-- `kErrors.IsAlreadyExists` and `kErrors.IsNotFound` of an error that may be nil.
abbrev pub is_already_exists : Option ForeignError → Bool
is_already_exists none = false
is_already_exists (some e) = e.already_exists

abbrev pub is_not_found : Option ForeignError → Bool
is_not_found none = false
is_not_found (some e) = e.not_found

-- `err.(*kErrors.StatusError)`
abbrev pub is_status : Option ForeignError → Bool
is_status none = false
is_status (some e) = elim e.status [ none ↦ false | some message ↦ true ]
