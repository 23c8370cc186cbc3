-- ===== src/Webhook/Mutator/SecretVolumes.antt =====
-- `getCASecretVolumes`: when it panics, and the volumes that it makes.
use cain.Prelude.{
  ℕ, ◌+◌, ◌≡◌, refl, ap, sym, subst, ◌⊎◌, inl, inr, Option, none, some, List, [], ◌∷◌, ◌++◌, arith,
  All, append-nil,
}
use cain.Go.Text.{GoString, text}
use cain.Go.Format.{sprintf}
use cain.Go.Text.Distinct.{IsDistinct}
use cain.Go.Text.Split.{Lacks}
use cain.Go.Exec.{returns, panics}
use cain.Kube.Pods.{SecretProjection, projected, empty_dir, Volume, Pod}
use cain.Metadata.{get_extra_secrets_to_inject}
use cain.Webhook.Mutator.State.{Mutator}
use cain.Webhook.Mutator.Sources.{
  extra_path, default_sources, default_secret_name, projected_sources,
}
use cain.Webhook.Mutator.Sources.Laws.{
  AreSources, AreDefaults, default_sources-AreDefaults, extra_sources_decided,
}
use cain.Webhook.Mutator.Sources.Paths.{
  file_paths, file_paths-append, IsDistinct-append, Numbered, Numbered-default, Numbered-extra,
  default_paths-IsDistinct, extra_paths-IsDistinct, defaults_apart,
}
use cain.Webhook.Mutator.Volumes.{get_ca_secret_volumes}

-- Every extra secret that the annotation names has a slash.
abbrev pub HasPairs : Option (List GoString) → Type 0
HasPairs none = Unit
HasPairs (some cas) = All (λ ca. ¬ (Lacks b'/' ca)) cas

-- The extra secrets became these sources.
abbrev pub AreExtras : Option (List GoString) → List SecretProjection → Type 0
AreExtras none sources = sources ≡ []
AreExtras (some cas) sources = AreSources 0 cas sources

abbrev pub volumes_with : Mutator → GoString → GoString → List SecretProjection → List Volume
volumes_with mut secret_volume ca_volume sources =
    record { name = secret_volume; source = projected mut.default_mode sources }
    ∷ record { name = ca_volume; source = empty_dir }
    ∷ []

slash_found : (name rest : GoString) → ¬ (Lacks b'/' (name ++ b'/' ∷ rest))
slash_found [] rest h = h.0 refl
slash_found (c ∷ name) rest h = slash_found name rest h.1

HasPairs-AreSources :
    (i : ℕ) (cas : List GoString) (sources : List SecretProjection)
    → AreSources i cas sources
    → All (λ ca. ¬ (Lacks b'/' ca)) cas
HasPairs-AreSources i [] sources a = tt
HasPairs-AreSources i (ca ∷ cas) [] a = absurd a
HasPairs-AreSources i (ca ∷ cas) (p ∷ ps) ((name, rest, key, e, l, k, same), more) = (
  subst (λ x. ¬ (Lacks b'/' x)) (sym e) (slash_found name rest),
  HasPairs-AreSources (i + 1) cas ps more,
)

pub default_secret_name_lem :
    (mut : Mutator) (root : GoString)
    → default_secret_name mut root ≡ mut.ca_secret.name ++ b'-' ∷ root
unfolding default_secret_name sprintf text
default_secret_name_lem mut root =
    ap (λ (s : GoString). mut.ca_secret.name ++ b'-' ∷ s) (append-nil root)

module _ (mut : Mutator) (pod : Pod) (root secret_volume ca_volume : GoString) where
  abbrev default_part : List SecretProjection
  default_part = default_sources (default_secret_name mut root) 0 mut.ca_secret.keys

  paths-IsDistinct :
      (i : ℕ) (extras : List SecretProjection)
      → Numbered extra_path i (file_paths extras)
      → IsDistinct (file_paths (default_part ++ extras))
  paths-IsDistinct i extras n =
      let m = Numbered-default (default_secret_name mut root) 0 mut.ca_secret.keys in
      rw (file_paths-append default_part extras) (
        IsDistinct-append (file_paths default_part) (file_paths extras)
          (default_paths-IsDistinct 0 _ m) (extra_paths-IsDistinct i _ n)
          (defaults_apart 0 i _ _ m n))

  default_part-AreDefaults :
      AreDefaults (mut.ca_secret.name ++ b'-' ∷ root) 0 mut.ca_secret.keys default_part
  default_part-AreDefaults =
      rw (sym (default_secret_name_lem mut root))
        (default_sources-AreDefaults (default_secret_name mut root) 0 mut.ca_secret.keys)

  -- The two outcomes of the call.
  abbrev pub VolumesOrPanic : Option (List GoString) → Type 0
  VolumesOrPanic extra =
      (HasPairs extra
        × ((defaults : List SecretProjection) × (extras : List SecretProjection) × AreDefaults
              (mut.ca_secret.name ++ b'-' ∷ root) 0 mut.ca_secret.keys defaults
            × AreExtras extra extras
            × IsDistinct (file_paths (defaults ++ extras))
            × (get_ca_secret_volumes mut pod root secret_volume ca_volume
                ≡ returns (volumes_with mut secret_volume ca_volume (defaults ++ extras)))))
      ⊎ (¬ (HasPairs extra)
          × ((why : GoString) × (get_ca_secret_volumes mut pod root secret_volume ca_volume
                ≡ panics why)))

  secret_volumes_at :
      (extra : Option (List GoString))
      → get_extra_secrets_to_inject mut.extractor pod.meta ≡ extra
      → VolumesOrPanic extra
  unfolding get_ca_secret_volumes projected_sources
  secret_volumes_at none e = inl (
    tt,
    (
      default_part,
      [],
      default_part-AreDefaults,
      refl,
      paths-IsDistinct 0 [] (Numbered.none_left 0),
      rw append-nil (ground arith),
    ),
  )
  secret_volumes_at (some cas) e = elim (extra_sources_decided 0 cas) [
    | inl (extras, h, are) ↦ inl (
      HasPairs-AreSources 0 cas extras are,
      (
        default_part,
        extras,
        default_part-AreDefaults,
        are,
        paths-IsDistinct 0 extras (Numbered-extra 0 cas extras are),
        ground arith,
      ),
    )
    | inr (why, h, lack) ↦ inr (lack, (why, ground arith))
  ]

  -- If every extra secret has a slash, the result is the projected volume and the empty one; the
  -- sources are, for each key of the CA secret in their order, that key of the secret named after the CA
  -- secret and the owner, as the numbered file of its place, then those of the extra secrets in their
  -- order, and no two of them are written to one file. Otherwise the call panics.
  pub get_ca_secret_volumes_decided :
      VolumesOrPanic (get_extra_secrets_to_inject mut.extractor pod.meta)
  get_ca_secret_volumes_decided =
      secret_volumes_at (get_extra_secrets_to_inject mut.extractor pod.meta) refl
