-- ===== src/Metadata.antt =====
-- metadata/extractor.go: the labels and annotations of an object, and the defaults without them.
pub mod CommonName
pub mod Keys
use cain.Prelude.{
  ℕ, ◌-◌, Bool, false, Option, none, some, List, [], ◌∷◌, ltb, length, drop, if◌then◌else◌,
}
use cain.Go.Text.{GoString, text, str_eq, split}
use cain.Go.Maps.{index}
use cain.Go.Format.{sprintf}
use cain.Go.FilePath.{dir, base}
use cain.Kube.Meta.{ObjectMeta}

abbrev pub truststore_mount_path : GoString
truststore_mount_path = text "/jvm-truststore/"

abbrev pub truststore_path : GoString
truststore_path = text "truststore.jks"

abbrev pub max_cn_length : ℕ
max_cn_length = 63

abbrev pub enabled_value : GoString
enabled_value = text "true"

-- `type Family string`
abbrev pub Family : Type 0
Family = GoString

abbrev pub debian_family : Family
debian_family = text "debian"

abbrev pub redhat_family : Family
redhat_family = text "redhat"

abbrev pub ca_secret_volume_name : GoString
ca_secret_volume_name = text "ca"

abbrev pub ca_complete_volume_name : GoString
ca_complete_volume_name = text "ca-certs"

-- `length := len(s); if n < length { s = s[length-n:] }`
unfoldable pub last_bytes : ℕ → GoString → GoString
last_bytes n s = if ltb n (length s) then drop (length s - n) s else s

pub record Extractor : Type 0 where
  pub domain : GoString
  pub dns_domain : GoString
  pub truststore_password : GoString
  pub enabled_label : GoString
  pub extra_secrets_annotation : GoString
  pub family_annotation : GoString
  pub jvm_annotation : GoString
  pub python_annotation : GoString
  pub ca_volume_name_annotation : GoString
  pub secret_volume_name_annotation : GoString
  pub jvm_common_name_annotation : GoString
  pub truststore_password_annotation : GoString
  pub jvm_path_annotation : GoString

unfoldable pub new_extractor : GoString → GoString → GoString → Extractor
new_extractor domain dns_domain truststore_password = record {
  domain = domain;
  dns_domain = dns_domain;
  truststore_password = truststore_password;
  enabled_label = sprintf (text "cain.%s/enabled") (domain ∷ []);
  extra_secrets_annotation = sprintf (text "cain.%s/extra-ca-secrets") (domain ∷ []);
  family_annotation = sprintf (text "cain.%s/family") (domain ∷ []);
  jvm_annotation = sprintf (text "cain.%s/jvm") (domain ∷ []);
  python_annotation = sprintf (text "cain.%s/python") (domain ∷ []);
  ca_volume_name_annotation = sprintf (text "cain.%s/ca-volume-name") (domain ∷ []);
  secret_volume_name_annotation = sprintf (text "cain.%s/secret-volume-name") (domain ∷ []);
  jvm_common_name_annotation = sprintf (text "cain.%s/jvm-common-name") (domain ∷ []);
  truststore_password_annotation = sprintf (text "cain.%s/truststore-password") (domain ∷ []);
  jvm_path_annotation = sprintf (text "cain.%s/jvm-path") (domain ∷ []);
}

module _ (e : Extractor) where
  unfoldable pub is_injection_enabled : ObjectMeta → Bool
  is_injection_enabled obj = elim (index obj.labels e.enabled_label) [
    | none ↦ false
    | some label_value ↦ str_eq label_value enabled_value
  ]

  unfoldable pub family : ObjectMeta → Family
  family obj = elim (index obj.annotations e.family_annotation) [
    | none ↦ debian_family
    | some value ↦ if str_eq value redhat_family then redhat_family else debian_family
  ]

  unfoldable pub is_jvm_enabled : ObjectMeta → Bool
  is_jvm_enabled obj = elim (index obj.annotations e.jvm_annotation) [
    | none ↦ false
    | some value ↦ str_eq value enabled_value
  ]

  unfoldable pub is_python_enabled : ObjectMeta → Bool
  is_python_enabled obj = elim (index obj.annotations e.python_annotation) [
    | none ↦ false
    | some value ↦ str_eq value enabled_value
  ]

  -- `none` is the result `nil, false`.
  unfoldable pub get_extra_secrets_to_inject : ObjectMeta → Option (List GoString)
  get_extra_secrets_to_inject obj = elim (index obj.annotations e.extra_secrets_annotation) [
    | none ↦ none
    | some value ↦ some (split b',' value)
  ]

  unfoldable pub ca_volume_name : ObjectMeta → GoString
  ca_volume_name obj = elim (index obj.annotations e.ca_volume_name_annotation) [
    | none ↦ ca_complete_volume_name
    | some value ↦ value
  ]

  unfoldable pub secret_volume_name : ObjectMeta → GoString
  secret_volume_name obj = elim (index obj.annotations e.secret_volume_name_annotation) [
    | none ↦ ca_secret_volume_name
    | some value ↦ value
  ]

  unfoldable pub jvm_common_name : ObjectMeta → GoString → GoString → GoString
  jvm_common_name obj root_name root_ns =
      let domain = if str_eq e.dns_domain [] then e.domain else e.dns_domain in
      let full = sprintf (text "%s.%s.%s") (root_name ∷ root_ns ∷ domain ∷ []) in
      elim (index obj.annotations e.jvm_common_name_annotation) [
        | none ↦ last_bytes max_cn_length full
        | some value ↦ last_bytes max_cn_length value
      ]

  unfoldable pub truststore_password : ObjectMeta → GoString
  truststore_password obj = elim (index obj.annotations e.truststore_password_annotation) [
    | none ↦ e.truststore_password
    | some value ↦ value
  ]

  -- The directory and the file.
  unfoldable pub jvm_path : ObjectMeta → GoString × GoString
  jvm_path obj = elim (index obj.annotations e.jvm_path_annotation) [
    | none ↦ (truststore_mount_path, truststore_path)
    | some value ↦ (dir value, base value)
  ]
