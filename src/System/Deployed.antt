-- ===== src/System/Deployed.antt =====
-- The two webhooks that the process serves: what the secrets hold that patched pods mount.
use cain.Prelude.{ℕ, ◌≡◌, sym, ◌∙◌, subst, Option, some, List, [], ◌∷◌, All, false}
use cain.Go.Text.{GoString}
use cain.Go.Errors.{Error, Result, ok}
use cain.Go.Exec.{returns}
use cain.Go.Maps.{GoMap, lookup}
use cain.Go.Maps.Copy.{IsMap, lookup-copy_empty}
use cain.Kube.Pods.{Pod, Object}
use cain.Kube.Client.{Kind, Client, IsSettled}
use cain.Secrets.Requests.{CreationRequest}
use cain.Secrets.Creator.{new_secret}
use cain.Webhook.Review.{AdmissionReview, create_operation}
use cain.Webhook.Mutator.Handler.{MutatorResult, mutate}
use cain.Webhook.Validator.{World}
use cain.Webhook.Validator.Sends.{IsOpen}
use cain.Setup.{EnvConfig, WebhookDependencies, Server, Libraries}
use cain.Setup.CaData.{IsCopied}
use cain.Setup.Webhooks.{IsReady}
use cain.System.Agreement.{SecretAsked, patched_pod_asks}

-- The secret that is made of a request has the data of the request.
new_secret_contents :
    (req : CreationRequest) (key : GoString)
    → IsMap req.kvs
    → lookup key (new_secret req).contents ≡ lookup key req.kvs
unfolding new_secret
new_secret_contents req key m = lookup-copy_empty key req.kvs m

All-IsCopied :
    (stored : GoMap GoString) (req : CreationRequest) (keys : List GoString)
    → IsMap req.kvs
    → All (IsCopied stored req.kvs) keys
    → All (IsCopied stored (new_secret req).contents) keys
All-IsCopied stored req [] m h = tt
All-IsCopied stored req (key ∷ keys) m ((v, here, found), more) =
    ((v, here, new_secret_contents req key m ∙ found), All-IsCopied stored req keys m more)

module _ {S V M R H : Type 0} (client : Client S)
    (answer : Kind → GoString → GoString → Result Object) (settled : IsSettled client answer)
    (fuel : ℕ) (lib : Libraries V M R H) (deps : WebhookDependencies) (env : EnvConfig)
    (server : Server H) where
  -- The validating webhook asks for the secret that `q` mounts, and the secret that the worker makes of
  -- the request has the stored value of every key of the CA secret.
  pub record SecretServed (ready : IsReady lib deps env server) (rev : AdmissionReview) (q : Pod)
      (w : World S) : Type 0 where
    pub secret_asked :
        SecretAsked client answer settled fuel ready.built.mutator ready.built.validator rev q w
    pub copied :
        All (IsCopied ready.stored (new_secret secret_asked.request).contents) env.ca_secret.keys

  -- If a server is ready, as a setup that succeeds makes it, and its mutating webhook patches an object
  -- to `q`, on a settled API server, then its validating webhook, called on open channels to create `q`
  -- in the same namespace, no dry run, accepts it and asks for the one secret that `q` mounts; and the
  -- secret that the worker makes of the request has, for every key of the CA secret, the value that the
  -- setup has read for it.
  pub deployed_pod_asks :
      (ready : IsReady lib deps env server) (done : Option Error) (rev rev' : AdmissionReview)
      (obj obj' : Object) (r : MutatorResult) (s t : S) (q : Pod) (w : World S)
      → IsOpen w
      → rev'.namespace ≡ rev.namespace
      → rev'.operation ≡ create_operation
      → rev'.dry_run ≡ false
      → mutate client fuel ready.built.mutator done rev obj s ≡ returns ((obj', ok r), t)
      → r.mutated_object ≡ some q
      → SecretServed ready rev' q w
  deployed_pod_asks ready done rev rev' obj obj' r s t q w is_open ns op dry h patch =
      let asked =
        patched_pod_asks client answer settled fuel ready.built.mutator ready.built.validator done
          rev rev' obj obj' r s t q w ready.built.same_secret ready.built.same_extractor is_open ns
          op dry h patch in
      let same : ready.contents ≡ asked.request.kvs =
        sym (asked.contents ∙ ready.built.contents_kept) in
      record {
        secret_asked = asked;
        copied =
            All-IsCopied ready.stored asked.request env.ca_secret.keys
              (subst IsMap same ready.contents_map)
              (subst (λ m. All (IsCopied ready.stored m) env.ca_secret.keys) same ready.copied);
      }
