-- ===== src/Tests/Parts.antt =====
-- The parts that both webhooks and the workers share, on concrete inputs.
use cain.Prelude.{List, ◌≡◌, ◌≢◌, refl, ◌⊎◌, Option, none, some, [], ◌∷◌, ◌++◌, map, arith}
use cain.Go.Text.{GoString, text, str_eq, split, join}
use cain.Go.Channel.{make_channel}
use cain.Go.Errors.{ForeignError, Result, ok}
use cain.Go.Exec.{returns}
use cain.Go.Maps.{lookup}
use cain.Go.Base64.RoundTrip.{decode}
use cain.Kube.Pods.{EnvVar, Quantity}
use cain.Kube.Metrics.{GroupVersionKind}
use cain.Metadata.{jvm_common_name, get_extra_secrets_to_inject}
use cain.Metadata.CommonName.{IsShortened, full_name, jvm_common_name-IsShortened}
use cain.Secrets.Creator.{new_secret}
use cain.Certificates.Creator.{
  Info, Certificate, Work, password_request, new_certificate, start_cert_creator,
}
use cain.Certificates.Password.{stored_password}
use cain.Certificates.Work.{IsDone, start_cert_creator_total}
use cain.Webhook.Config.{
  ContainerResourcesEnv, new_container_resources, unmarshal_text, err_misformed_secret_name,
}
use cain.Webhook.Config.CaSecrets.{IsPair, unmarshal_text_decided, unmarshal_text-join}
use cain.Webhook.Config.Resources.{AreParsed, new_container_resources_parsed}
use cain.Webhook.Mutator.SecretVolumes.{VolumesOrPanic, get_ca_secret_volumes_decided}
use cain.Webhook.Mutator.Env.{add_jvm_env, add_python_env}
use cain.Webhook.Mutator.JvmEnv.{IsUnset, IsExtended, add_jvm_env_decided}
use cain.Webhook.Mutator.Python.{bundle_of, with_bundle, add_python_env_total}
use cain.Tests.Fixtures.{app, ca_secret, extractor, mutator, meta, resources, pod, replica_set_ref}

jvm_common_name-IsShortened_example :
    IsShortened 63
      (full_name extractor (meta none) (text "web") (text "shop"))
      (jvm_common_name extractor (meta none) (text "web") (text "shop"))
jvm_common_name-IsShortened_example =
    jvm_common_name-IsShortened extractor (meta none) (text "web") (text "shop")

get_ca_secret_volumes_decided_example :
    VolumesOrPanic mutator pod
      (text "web")
      (text "ca")
      (text "ca-certs")
      (get_extra_secrets_to_inject mutator.extractor pod.meta)
get_ca_secret_volumes_decided_example =
    get_ca_secret_volumes_decided mutator pod (text "web") (text "ca") (text "ca-certs")

add_python_env_total_example : add_python_env mutator pod ≡ (
  record pod {
    containers = map (with_bundle (bundle_of mutator.extractor pod.meta)) pod.containers;
  },
  none,
)
add_python_env_total_example = add_python_env_total mutator pod

unmarshal_text_decided_example :
    ((name : GoString) × (value : GoString) × IsPair (text "ca/root.crt,sub.crt") name value
      × (unmarshal_text ca_secret (text "ca/root.crt,sub.crt")
          ≡ (record { name = name; keys = split b',' value }, none)))
    ⊎ (((name value : GoString) → ¬ (IsPair (text "ca/root.crt,sub.crt") name value))
        × (unmarshal_text ca_secret (text "ca/root.crt,sub.crt")
            ≡ (ca_secret, some err_misformed_secret_name)))
unmarshal_text_decided_example = unmarshal_text_decided ca_secret (text "ca/root.crt,sub.crt")

unmarshal_text-join_example :
    unmarshal_text ca_secret (text "c" ++ b'/' ∷ join b',' (text "a" ∷ text "b" ∷ []))
    ≡ (record { name = text "c"; keys = text "a" ∷ text "b" ∷ [] }, none)
unfolding text
unmarshal_text-join_example =
    unmarshal_text-join ca_secret (text "c") (text "a") (text "b" ∷ []) (omega arith, tt)
      ((omega arith, tt), ((omega arith, tt), tt)) ((omega arith, tt), ((omega arith, tt), tt))

abbrev parse : GoString → Result Quantity
parse s = ok (record { canonical = s })

abbrev limits_only : ContainerResourcesEnv
limits_only = record {
  cpu_limit = text "1Gi";
  mem_limit = text "1Gi";
  cpu_request = [];
  mem_request = [];
}

limits_parsed : new_container_resources parse limits_only ≡ ok resources
unfolding new_container_resources str_eq
limits_parsed = refl

new_container_resources_parsed_example : AreParsed parse limits_only resources
new_container_resources_parsed_example =
    new_container_resources_parsed parse limits_only resources limits_parsed

abbrev info : Info
info = record {
  pod_name = text "web";
  namespace = text "shop";
  dns_names = text "web.shop.cluster.local" ∷ [];
  truststore_password = text "pw";
  ctlr_ref = some replica_set_ref;
}

stored_password_example :
    (stored : GoString) × (lookup (text "password") (new_secret (password_request info)).contents
      ≡ some stored)
    × (decode stored ≡ text "pw")
    × (stored ≢ text "pw")
unfolding text
stored_password_example = stored_password info (omega arith, (omega arith, tt)) (λ e. cc e)

abbrev create : GoString → Certificate → Unit {0} → Option ForeignError × Unit {0}
create ns cert s = (none, s)

abbrev gvk_string : GroupVersionKind → GoString
gvk_string gvk = gvk.kind

abbrev idle : Work Unit
idle = record { api = tt; calls = []; sec_creation = make_channel }

info_named : (cert : Certificate) × (new_certificate (text "issuer") info ≡ some cert)
unfolding new_certificate
info_named = (_, refl)

start_cert_creator_total_example :
    (w : Work Unit) × (start_cert_creator create gvk_string (text "issuer") (info ∷ []) idle
      ≡ returns w)
    × IsDone create gvk_string (text "issuer") (info ∷ []) idle w
start_cert_creator_total_example =
    start_cert_creator_total create gvk_string (text "issuer") (info ∷ []) idle refl
      (info_named, tt)

add_jvm_env_decided_example :
    IsUnset (text "JAVA_OPTS") app.env
      × (add_jvm_env (text "JAVA_OPTS") (text "-Dx=y") app ≡ record app {
        env = app.env ++ record { name = text "JAVA_OPTS"; value = text "-Dx=y" } ∷ [];
      })
    ⊎ (env' : List EnvVar) × IsExtended (text "JAVA_OPTS") (text "-Dx=y") app.env env'
      × (add_jvm_env (text "JAVA_OPTS") (text "-Dx=y") app ≡ record app { env = env' })
add_jvm_env_decided_example = add_jvm_env_decided (text "JAVA_OPTS") (text "-Dx=y") app
