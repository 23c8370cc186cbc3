-- ===== src/Certificates/Names.antt =====
-- `SecretName` and `TruststorePasswordSecretName` of certificates/certcreator.go.
use cain.Prelude.{◌++◌}
use cain.Go.Text.{GoString, text}

unfoldable pub secret_name : GoString → GoString
secret_name pod_name = pod_name ++ text "-truststore-cert"

unfoldable pub truststore_password_secret_name : GoString → GoString
truststore_password_secret_name pod_name = pod_name ++ text "-truststore-password"
