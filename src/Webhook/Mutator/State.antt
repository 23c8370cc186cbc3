-- ===== src/Webhook/Mutator/State.antt =====
-- The constants of webhook/mutator.go and the fields of `Mutator` (client and logger apart: the
-- client is a parameter of the operations, and logging is not modelled).
use cain.Prelude.{ℕ}
use cain.Go.Text.{GoString, text}
use cain.Metadata.{Extractor}
use cain.Webhook.Config.{CaSecret, ContainerResources}

abbrev pub ca_init_container_name : GoString
ca_init_container_name = text "ca-cert-gen"

abbrev pub ca_truststore_volume_name : GoString
ca_truststore_volume_name = text "cain-truststore"

abbrev pub update_ca_path : GoString
update_ca_path = text "/tmp/ca-certs/"

abbrev pub update_ca_path_env_var : GoString
update_ca_path_env_var = text "TMP_CERTS_DIR"

abbrev pub debian_ca_secret_volume_mount_path : GoString
debian_ca_secret_volume_mount_path = text "/usr/local/share/ca-certificates/injected"

abbrev pub debian_complete_ca_volume_mount_path : GoString
debian_complete_ca_volume_mount_path = text "/etc/ssl/certs/"

abbrev pub debian_complete_ca_name : GoString
debian_complete_ca_name = text "ca-certificates.crt"

abbrev pub redhat_ca_secret_volume_mount_path : GoString
redhat_ca_secret_volume_mount_path = text "/usr/share/pki/ca-trust-source/anchors"

abbrev pub redhat_complete_ca_volume_mount_path : GoString
redhat_complete_ca_volume_mount_path = text "/etc/pki/ca-trust/extracted"

abbrev pub redhat_complete_ca_name : GoString
redhat_complete_ca_name = text "ca-bundle.trust.crt"

abbrev pub requests_ca_bundle_env_var : GoString
requests_ca_bundle_env_var = text "REQUESTS_CA_BUNDLE"

abbrev pub ssl_cert_file_env_var : GoString
ssl_cert_file_env_var = text "SSL_CERT_FILE"

abbrev pub file_default_mode : ℕ
file_default_mode = 420

pub record Mutator : Type 0 where
  pub extractor : Extractor
  pub ca_secret : CaSecret
  pub debian_init_image : GoString
  pub redhat_init_image : GoString
  pub jvm_env_variable : GoString
  pub container_resources : ContainerResources
  pub default_mode : ℕ

unfoldable pub new_mutator :
    Extractor → CaSecret → GoString → GoString → GoString → ContainerResources → Mutator
new_mutator extractor ca_secret debian_image redhat_image jvm_env_variable resources = record {
  extractor = extractor;
  ca_secret = ca_secret;
  debian_init_image = debian_image;
  redhat_init_image = redhat_image;
  jvm_env_variable = jvm_env_variable;
  container_resources = resources;
  default_mode = file_default_mode;
}
