-- ===== src/Metadata/Keys.antt =====
-- The keys of the label and the annotations of an extractor, and what its methods read.
use mathlib.Core.List.{append_cancel_left}
use cain.Prelude.{◌≡◌, refl, sym, subst, true, List, [], ◌∷◌, ◌++◌, map}
use cain.Go.Text.{GoString, text, str_eq}
use cain.Go.Text.Distinct.{IsDistinct, distinct, IsDistinct-map}
use cain.Go.Format.{sprintf}
use cain.Go.Maps.{index}
use cain.Kube.Meta.{ObjectMeta}
use cain.Metadata.{
  Extractor, new_extractor, is_injection_enabled, family, is_jvm_enabled, is_python_enabled,
  get_extra_secrets_to_inject, ca_volume_name, secret_volume_name, jvm_common_name,
  truststore_password, jvm_path,
}

abbrev pub keys_of : Extractor → List GoString
keys_of e =
    e.enabled_label ∷ e.extra_secrets_annotation ∷ e.family_annotation ∷ e.jvm_annotation
    ∷ e.python_annotation ∷ e.ca_volume_name_annotation ∷ e.secret_volume_name_annotation
    ∷ e.jvm_common_name_annotation ∷ e.truststore_password_annotation ∷ e.jvm_path_annotation ∷ []

abbrev suffixes : List GoString
suffixes =
    text "/enabled"
    ∷ text "/extra-ca-secrets"
    ∷ text "/family"
    ∷ text "/jvm"
    ∷ text "/python"
    ∷ text "/ca-volume-name"
    ∷ text "/secret-volume-name"
    ∷ text "/jvm-common-name"
    ∷ text "/truststore-password"
    ∷ text "/jvm-path"
    ∷ []

suffixes-distinct : distinct suffixes ≡ true
unfolding distinct str_eq text
suffixes-distinct = refl

keys_shape :
    (domain dns_domain password : GoString)
    → keys_of (new_extractor domain dns_domain password)
      ≡ map (λ y. (text "cain." ++ domain) ++ y) suffixes
unfolding new_extractor sprintf text
keys_shape domain dns_domain password = refl

pub keys-IsDistinct :
    (domain dns_domain password : GoString)
    → IsDistinct (keys_of (new_extractor domain dns_domain password))
keys-IsDistinct domain dns_domain password =
    subst IsDistinct (sym (keys_shape domain dns_domain password)) (
      IsDistinct-map (λ y. (text "cain." ++ domain) ++ y)
        (λ a b. append_cancel_left (text "cain." ++ domain) a b) suffixes suffixes-distinct)

-- `read` depends on the annotation of the key alone.
abbrev pub ReadsOnly : {A : Type 0} → GoString → (ObjectMeta → A) → Type 0
ReadsOnly key read =
    (obj obj' : ObjectMeta)
    → index obj.annotations key ≡ index obj'.annotations key
    → read obj ≡ read obj'

-- No two of the keys are the same, and each method reads the label or the annotation of its own key alone.
pub record ReadsApart (e : Extractor) : Type 0 where
  pub distinct_keys : IsDistinct (keys_of e)
  pub injection :
      (obj obj' : ObjectMeta)
      → index obj.labels e.enabled_label ≡ index obj'.labels e.enabled_label
      → is_injection_enabled e obj ≡ is_injection_enabled e obj'
  pub extra_secrets : ReadsOnly e.extra_secrets_annotation (get_extra_secrets_to_inject e)
  pub family_name : ReadsOnly e.family_annotation (family e)
  pub jvm : ReadsOnly e.jvm_annotation (is_jvm_enabled e)
  pub python : ReadsOnly e.python_annotation (is_python_enabled e)
  pub ca_volume : ReadsOnly e.ca_volume_name_annotation (ca_volume_name e)
  pub secret_volume : ReadsOnly e.secret_volume_name_annotation (secret_volume_name e)
  pub common_name :
      (name namespace : GoString)
      → ReadsOnly e.jvm_common_name_annotation (λ obj. jvm_common_name e obj name namespace)
  pub password : ReadsOnly e.truststore_password_annotation (truststore_password e)
  pub path : ReadsOnly e.jvm_path_annotation (jvm_path e)
