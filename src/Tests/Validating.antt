-- ===== src/Tests/Validating.antt =====
-- The validating webhook on the pod of the tests, before and after the mutating one.
use cain.Prelude.{◌≡◌, ◌≢◌, refl, none, some, [], ◌∷◌, arith, true, false}
use cain.Go.Text.{text, str_eq}
use cain.Go.Errors.{ok, err, errorf}
use cain.Go.Exec.{returns, panics}
use cain.Go.Format.{sprintf}
use cain.Go.Maps.{index, lookup}
use cain.Kube.Pods.{a_pod}
use cain.Metadata.{
  new_extractor, is_injection_enabled, is_jvm_enabled, secret_volume_name, ca_volume_name,
}
use cain.Webhook.Owner.{root_owner, kind_func}
use cain.Webhook.Review.{create_operation, delete_operation}
use cain.Webhook.Mutator.State.{new_mutator}
use cain.Webhook.Validator.{
  World, accepted, validate, dispatch, create_resources, creation_request, cert_info,
}
use cain.Go.Channel.{make_channel}
use cain.System.Pipeline.Reviews.{Messages}
use cain.System.Pipeline.Reviews.Sending.{validate-Messages}
use cain.Webhook.Validator.Sends.{SameChannels, validate_dry_run}
use cain.Webhook.Validator.Shutdown.{validate_after_cancel}
use cain.System.Agreement.{SecretAsked, patched_pod_asks}
use cain.System.Truststore.{CertificateAsked, patched_jvm_pod_asks}
use cain.System.Cleanup.{Lifetime, create_then_delete}
use cain.Tests.Fixtures.{
  answer, client, client-IsSettled, mutator, validator, review, replica_set_ref, pod, lone_pod,
  patched, patch, world, world-IsOpen, cancelled,
}
use cain.Tests.Mutating.{pod-patched}

pod_enabled : is_injection_enabled validator.extractor pod.meta ≡ true
unfolding is_injection_enabled index lookup str_eq text new_extractor sprintf
pod_enabled = refl

lone_pod_enabled : is_injection_enabled validator.extractor lone_pod.meta ≡ true
unfolding is_injection_enabled index lookup str_eq text new_extractor sprintf
lone_pod_enabled = refl

pod_of_jvm : is_jvm_enabled mutator.extractor pod.meta ≡ true
unfolding is_jvm_enabled index lookup str_eq text new_extractor new_mutator sprintf
pod_of_jvm = refl

secret_volume_apart : secret_volume_name mutator.extractor pod.meta ≢ text "cain-truststore"
unfolding secret_volume_name index lookup str_eq text new_extractor new_mutator sprintf
secret_volume_apart e = cc e

ca_volume_apart : ca_volume_name mutator.extractor pod.meta ≢ text "cain-truststore"
unfolding ca_volume_name index lookup str_eq text new_extractor new_mutator sprintf
ca_volume_apart e = cc e

patched_pod_asks_example :
    SecretAsked client answer client-IsSettled 2 mutator validator
      (review create_operation false)
      patched
      world
unfolding new_mutator
patched_pod_asks_example =
    patched_pod_asks client answer client-IsSettled 2 mutator validator none
      (review create_operation false) (review create_operation false) (a_pod pod) (a_pod patched)
      patch tt tt patched world refl refl world-IsOpen refl refl refl pod-patched refl

patched_jvm_pod_asks_example :
    CertificateAsked client answer client-IsSettled 2 mutator validator
      (text "issuer")
      (review create_operation false)
      patched
      world
unfolding new_mutator
patched_jvm_pod_asks_example =
    patched_jvm_pod_asks client answer client-IsSettled 2 mutator validator (text "issuer") none
      (review create_operation false) (review create_operation false) pod (a_pod patched) patch tt
      tt patched world refl world-IsOpen refl refl refl pod_of_jvm tt secret_volume_apart
      ca_volume_apart pod-patched refl

create_then_delete_example :
    Lifetime client 1 validator
      (text "issuer")
      (review create_operation false)
      (review delete_operation false)
      lone_pod
      world
create_then_delete_example =
    create_then_delete client 1 validator (text "issuer") (review create_operation false)
      (review delete_operation false) lone_pod world lone_pod_enabled refl world-IsOpen refl refl
      refl refl refl (omega arith)

dry_run_accepted :
    validate client 2 validator none (review create_operation true) (a_pod pod) world
    ≡ returns (ok accepted, world)
unfolding validate is_injection_enabled index lookup str_eq text new_extractor sprintf root_owner
    kind_func is_jvm_enabled dispatch create_resources
dry_run_accepted = refl

validate_dry_run_example : SameChannels world world
validate_dry_run_example =
    validate_dry_run client 2 validator (review create_operation true) (a_pod pod) (ok accepted)
      world world refl dry_run_accepted

-- The channels after a call whose context was done.
abbrev closed_world : World Unit
closed_world = record {
  api = tt;
  sec_creation = record { is_open = false; sent = [] };
  sec_deletion = record { is_open = false; sent = [] };
  cert_creation = record { is_open = false; sent = [] };
}

cancelled_call :
    validate client 2 validator (some cancelled) (review delete_operation false) (a_pod pod) world
    ≡ returns (err (errorf (text "context has been cancelled, %w") [] cancelled), closed_world)
unfolding validate
cancelled_call = refl

owner_found :
    root_owner client (text "shop") 2 pod.meta none tt ≡ returns (ok (some replica_set_ref), tt)
unfolding root_owner kind_func lookup str_eq text
owner_found = refl

validate_after_cancel_example :
    (validate client 2 validator
        (some cancelled)
        (review delete_operation false)
        (a_pod pod)
        closed_world
      ≡ panics (text "close of closed channel"))
    × (validate client 2 validator none (review create_operation false) (a_pod pod) closed_world
        ≡ panics (text "send on closed channel"))
validate_after_cancel_example =
    validate_after_cancel client 2 validator cancelled (review delete_operation false) (a_pod pod)
      (err (errorf (text "context has been cancelled, %w") [] cancelled)) world closed_world
      cancelled_call cancelled (review delete_operation false) (a_pod pod)
      (review create_operation false) pod replica_set_ref tt pod_enabled refl refl owner_found

-- The channels after the creation of the pod.
abbrev asked_world : World Unit
asked_world = record {
  api = tt;
  sec_creation = record {
    is_open = true;
    sent = creation_request validator (review create_operation false) replica_set_ref ∷ [];
  };
  sec_deletion = make_channel;
  cert_creation = record {
    is_open = true;
    sent = cert_info validator pod (review create_operation false) replica_set_ref ∷ [];
  };
}

created_call :
    validate client 2 validator none (review create_operation false) (a_pod pod) world
    ≡ returns (ok accepted, asked_world)
unfolding validate is_injection_enabled index lookup str_eq text new_extractor sprintf root_owner
    kind_func is_jvm_enabled dispatch create_resources creation_request cert_info
created_call = refl

validate-Messages_example :
    Messages (text "issuer") (review create_operation false) world asked_world
validate-Messages_example =
    validate-Messages client 2 validator (text "issuer") (review create_operation false) (a_pod pod)
      (ok accepted) world asked_world world-IsOpen created_call
