-- ===== src/System/Agreement.antt =====
-- A patched pod mounts secrets by name; the validating webhook asks for those names.
use cain.Prelude.{
  ℕ, ◌≡◌, refl, sym, subst, inl, inr, true, false, Option, none, some, List, [], ◌∷◌, ◌++◌, Member,
  first, Member-append_left, Member-append_right,
}
use cain.Go.Text.{GoString}
use cain.Go.Errors.{Error, Result, ok}
use cain.Go.Exec.{returns}
use cain.Kube.Pods.{SecretProjection, projected, empty_dir, Volume, Pod, Object, a_pod}
use cain.Kube.Client.{Kind, Client, IsSettled}
use cain.Metadata.{is_injection_enabled, secret_volume_name, ca_volume_name}
use cain.Secrets.Requests.{CreationRequest}
use cain.Webhook.Owner.{root_owner}
use cain.Webhook.Owner.Stability.{root_owner_stable}
use cain.Webhook.Review.{AdmissionReview, create_operation}
use cain.Webhook.Mutator.State.{Mutator}
use cain.Webhook.Mutator.Sources.{default_secret_name}
use cain.Webhook.Mutator.Sources.Laws.{AreDefaults}
use cain.Webhook.Mutator.SecretVolumes.{default_secret_name_lem, get_ca_secret_volumes_decided}
use cain.Webhook.Mutator.Handler.{MutatorResult, mutate}
use cain.Webhook.Mutator.Patched.{mutate-Patched}
use cain.Webhook.Mutator.Injection.{Injected, Injected-extends}
use cain.Webhook.Mutator.Bundle.{volumes_of_Injected}
use cain.Webhook.Validator.{
  Validator, World, accepted, validate, creation_request, validator_secret_name,
}
use cain.Webhook.Validator.Sends.{IsOpen, create_sends}

-- `q` has a volume with, for each key of the CA secret, the source of that key of the secret `name`, and
-- what else it needs.
pub record MountsSecret (mut : Mutator) (name : GoString) (q : Pod) : Type 0 where
  pub volume : Volume
  pub default_part : List SecretProjection
  pub extra_part : List SecretProjection
  pub mounted : Member volume q.volumes
  pub source : volume.source ≡ projected mut.default_mode (default_part ++ extra_part)
  pub defaults : AreDefaults name 0 mut.ca_secret.keys default_part

module _ {S : Type 0} (client : Client S) (fuel : ℕ) (mut : Mutator) where
  Injected-MountsSecret :
      (namespace : GoString) (pod : Pod) (s t : S) (q : Pod)
      (i : Injected client fuel mut namespace pod s t q)
      → MountsSecret mut (default_secret_name mut i.ca_step.owner.name) q
  Injected-MountsSecret namespace pod s t q i =
      let owner = i.ca_step.owner.name in
      let made = i.ca_step.made in
      elim (get_ca_secret_volumes_decided mut pod owner (secret_volume_name mut.extractor pod.meta)
        (ca_volume_name mut.extractor pod.meta)) [
          | inl (pairs, (defaults, extras, of_keys, are, distinct, h)) ↦
              (let ca_volume : Volume = record {
                name = secret_volume_name mut.extractor pod.meta;
                source = projected mut.default_mode (defaults ++ extras);
              } in
                let same : i.ca_step.volumes
                    ≡ ca_volume
                      ∷ record { name = ca_volume_name mut.extractor pod.meta; source = empty_dir }
                      ∷ [] =
                  cc (made, h) in
                let (more, longer) = volumes_of_Injected client fuel mut namespace pod s t q i in
                record {
                  volume = ca_volume;
                  default_part = defaults;
                  extra_part = extras;
                  mounted = subst (Member ca_volume) (sym longer) (
                      Member-append_left more (
                        Member-append_right pod.volumes
                          (subst (Member ca_volume) (sym same) first)));
                  source = refl;
                  defaults = rw (default_secret_name_lem mut owner) of_keys;
                })
          | inr (lack, (why, h)) ↦ absurd (cc (made, h))
        ]

module _ {S : Type 0} (client : Client S) (answer : Kind → GoString → GoString → Result Object)
    (settled : IsSettled client answer) (fuel : ℕ) (mut : Mutator) (v : Validator) where
  -- What the validating webhook does for a patched pod: it asks for the secret that the pod mounts.
  pub record SecretAsked (rev : AdmissionReview) (q : Pod) (w : World S) : Type 0 where
    pub after : World S
    pub request : CreationRequest
    pub asked : after.sec_creation.sent ≡ w.sec_creation.sent ++ request ∷ []
    pub namespace : request.namespace ≡ rev.namespace
    pub contents : request.kvs ≡ v.ca_secret_data
    pub accepts : validate client fuel v none rev (a_pod q) w ≡ returns (ok accepted, after)
    pub mounts : MountsSecret mut request.name q

  asked_for :
      (rev : AdmissionReview) (pod : Pod) (s t : S) (q : Pod) (w : World S)
      → v.ca_secret ≡ mut.ca_secret
      → v.extractor ≡ mut.extractor
      → IsOpen w
      → rev.operation ≡ create_operation
      → rev.dry_run ≡ false
      → is_injection_enabled mut.extractor pod.meta ≡ true
      → Injected client fuel mut rev.namespace pod s t q
      → SecretAsked rev q w
  asked_for rev pod s t q w same_secret same_extractor is_open op dry on i =
      let meta = (Injected-extends client fuel mut rev.namespace pod s t q i).meta in
      let owner = i.ca_step.owner in
      let found : root_owner client rev.namespace fuel q.meta none w.api
          ≡ returns (ok (some owner), w.api) =
        rw meta (
          root_owner_stable client answer settled rev.namespace fuel pod.meta none s i.middle w.api
            (ok (some owner)) i.ca_step.owned) in
      let same_name : validator_secret_name v owner.name ≡ default_secret_name mut owner.name =
        unfold validator_secret_name default_secret_name in rw same_secret in
      record {
        after = _;
        request = creation_request v rev owner;
        asked = refl;
        namespace = unfold creation_request in refl;
        contents = unfold creation_request in refl;
        accepts =
            create_sends client fuel v rev q w owner w.api is_open (rw (same_extractor, meta) on) op
              dry found;
        mounts =
            unfold creation_request in
            rw same_name (Injected-MountsSecret client fuel mut rev.namespace pod s t q i);
      }

  -- On a settled API server, if the mutating webhook patches an object to `q`, then the validating
  -- webhook, called with the same CA secret and extractor to create `q` in the same namespace, no dry
  -- run, on open channels, accepts it and asks for exactly one secret in that namespace, with the CA
  -- data; and `q` has a volume with, for each key of the CA secret, the source of that key of that very
  -- secret.
  pub patched_pod_asks :
      (done : Option Error) (rev rev' : AdmissionReview) (obj obj' : Object) (r : MutatorResult)
      (s t : S) (q : Pod) (w : World S)
      → v.ca_secret ≡ mut.ca_secret
      → v.extractor ≡ mut.extractor
      → IsOpen w
      → rev'.namespace ≡ rev.namespace
      → rev'.operation ≡ create_operation
      → rev'.dry_run ≡ false
      → mutate client fuel mut done rev obj s ≡ returns ((obj', ok r), t)
      → r.mutated_object ≡ some q
      → SecretAsked rev' q w
  patched_pod_asks done rev rev' obj obj' r s t q w same_secret same_extractor is_open ns op dry h
        patch =
      let p = mutate-Patched client fuel mut done rev obj obj' r s t q h patch in
      asked_for rev' p.pod s t q w same_secret same_extractor is_open op dry p.enabled
        (subst (λ n. Injected client fuel mut n p.pod s t q) (sym ns) p.injected)
