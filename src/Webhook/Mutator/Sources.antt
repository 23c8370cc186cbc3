-- ===== src/Webhook/Mutator/Sources.antt =====
-- The sources of the projected volume in `getCASecretVolumes`: the keys of the default secret and the
-- extra secrets of the pod's annotation.
pub mod Laws
pub mod Paths
use cain.Prelude.{ℕ, ◌+◌, Option, none, some, List, [], ◌∷◌, ◌++◌}
use cain.Go.Text.{GoString, text, split}
use cain.Go.Format.{sprintf, decimal}
use cain.Go.Exec.{Exec, returns, panics, diverges}
use cain.Kube.Pods.{SecretProjection, Pod}
use cain.Metadata.{get_extra_secrets_to_inject}
use cain.Webhook.Mutator.State.{Mutator}

-- One secret with one of its keys, which becomes a file at the path.
abbrev pub projection : GoString → GoString → GoString → SecretProjection
projection name key path = record { name = name; items = record { key = key; path = path } ∷ [] }

-- The files of the two loops.
unfoldable pub default_path : ℕ → GoString
default_path i = sprintf (text "injected_ca-%0d.crt") (decimal i ∷ [])

unfoldable pub extra_path : ℕ → GoString
extra_path i = sprintf (text "injected_extra_ca-%0d.crt") (decimal i ∷ [])

-- The loop over the keys of the default secret, from the given index on.
unfoldable pub default_sources : GoString → ℕ → List GoString → List SecretProjection
default_sources name i [] = []
default_sources name i (key ∷ keys) =
    projection name key (default_path i) ∷ default_sources name (i + 1) keys

-- The two values that the loop body takes of `strings.Split(caToInject, "/")`; `none` where the
-- index is out of range.
unfoldable pub secret_and_key : GoString → Option (GoString × GoString)
secret_and_key ca = elim (split b'/' ca) [ name ∷ key ∷ rest ↦ some (name, key) | _ ↦ none ]

abbrev pub index_panic : GoString
index_panic = text "index out of range [1] with length 1"

-- The loop over the extra secrets, from the given index on.
unfoldable pub extra_sources : ℕ → List GoString → Exec (List SecretProjection)
extra_sources i [] = returns []
extra_sources i (ca ∷ cas) =
    let rest = extra_sources (i + 1) cas in
    elim (secret_and_key ca) [
      | none ↦ panics index_panic
      | some (name, key) ↦ elim rest [
        | returns sources ↦ returns (projection name key (extra_path i) ∷ sources)
        | panics why ↦ panics why
        | diverges ↦ diverges
      ]
    ]

-- The name of the default secret of an owner.
unfoldable pub default_secret_name : Mutator → GoString → GoString
default_secret_name mut root_obj_name =
    sprintf (text "%s-%s") (mut.ca_secret.name ∷ root_obj_name ∷ [])

unfoldable pub projected_sources : Mutator → Pod → GoString → Exec (List SecretProjection)
projected_sources mut pod root_obj_name =
    let name = default_secret_name mut root_obj_name in
    let defaults = default_sources name 0 mut.ca_secret.keys in
    elim (get_extra_secrets_to_inject mut.extractor pod.meta) [
      | none ↦ returns defaults
      | some cas ↦ elim (extra_sources 0 cas) [
        | returns sources ↦ returns (defaults ++ sources)
        | panics why ↦ panics why
        | diverges ↦ diverges
      ]
    ]
