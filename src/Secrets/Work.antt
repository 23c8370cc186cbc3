-- ===== src/Secrets/Work.antt =====
-- What the workers for secrets report of the API server's answers.
use cain.Prelude.{
  ◌≡◌, refl, sym, ◌∙◌, Option, List, [], ◌∷◌, ◌++◌, map, arith, append-nil, append_assoc,
}
use cain.Go.Text.{GoString}
use cain.Go.Errors.{ForeignError}
use cain.Kube.Secrets.{SecretClient}
use cain.Kube.Metrics.{MetricsCall, GroupVersionKind, call_namespace}
use cain.Secrets.Requests.{CreationRequest, DeletionRequest}
use cain.Secrets.Creator.{secret_gvk, new_secret, creation_call, handle_creation, start_creator}
use cain.Secrets.Deleter.{deletion_call, handle_deletion, start_deleter}

creation_call_namespace :
    (ns gvk : GoString) (failed : Option ForeignError)
    → call_namespace (creation_call ns gvk failed) ≡ ns
unfolding creation_call
creation_call_namespace ns gvk failed = ground arith

deletion_call_namespace :
    (ns gvk : GoString) (failed : Option ForeignError)
    → call_namespace (deletion_call ns gvk failed) ≡ ns
unfolding deletion_call
deletion_call_namespace ns gvk failed = ground arith

-- The calls `after` are the calls `before`, with one more for each of the namespaces, in their order.
pub record OneCallEach (namespaces : List GoString) (before after : List MetricsCall) : Type 0 where
  pub new_calls : List MetricsCall
  pub calls : after ≡ before ++ new_calls
  pub placed : map call_namespace new_calls ≡ namespaces

no_calls : (before : List MetricsCall) → OneCallEach [] before before
no_calls before = record { new_calls = []; calls = sym (append-nil before); placed = refl }

one_call_more :
    (ns : GoString) (namespaces : List GoString) (call : MetricsCall)
    (before after : List MetricsCall)
    → call_namespace call ≡ ns
    → OneCallEach namespaces (before ++ call ∷ []) after
    → OneCallEach (ns ∷ namespaces) before after
one_call_more ns namespaces call before after here rest = record {
  new_calls = call ∷ rest.new_calls;
  calls = rest.calls ∙ append_assoc before (call ∷ []) rest.new_calls;
  placed = let more = rest.placed in cc (here, more);
}

module _ {S : Type 0} (client : SecretClient S) (gvk_string : GroupVersionKind → GoString) where
  creator-OneCallEach :
      (reqs : List CreationRequest) (s : S) (calls : List MetricsCall)
      → OneCallEach
          (map (λ (r : CreationRequest). r.namespace) reqs)
          calls
          (start_creator client gvk_string reqs (s, calls)).1
  unfolding start_creator handle_creation
  creator-OneCallEach [] s calls = no_calls calls
  creator-OneCallEach (req ∷ reqs) s calls =
      let (failed, t) = client.create req.namespace (new_secret req) s in
      one_call_more req.namespace _ (creation_call req.namespace (gvk_string secret_gvk) failed)
        calls _ (creation_call_namespace req.namespace (gvk_string secret_gvk) failed)
        (creator-OneCallEach reqs t _)

  deleter-OneCallEach :
      (reqs : List DeletionRequest) (s : S) (calls : List MetricsCall)
      → OneCallEach
          (map (λ (r : DeletionRequest). r.namespace) reqs)
          calls
          (start_deleter client gvk_string reqs (s, calls)).1
  unfolding start_deleter handle_deletion
  deleter-OneCallEach [] s calls = no_calls calls
  deleter-OneCallEach (req ∷ reqs) s calls =
      let (failed, t) = client.delete req.namespace req.name s in
      one_call_more req.namespace _ (deletion_call req.namespace (gvk_string secret_gvk) failed)
        calls _ (deletion_call_namespace req.namespace (gvk_string secret_gvk) failed)
        (deleter-OneCallEach reqs t _)

  -- Both workers make one metrics call for each request that comes, in its namespace and in the order of
  -- the requests, whatever the API server answers.
  pub workers-OneCallEach :
      (reqs : List CreationRequest) (reqs' : List DeletionRequest) (s s' : S)
      (calls calls' : List MetricsCall)
      → OneCallEach
          (map (λ (r : CreationRequest). r.namespace) reqs)
          calls
          (start_creator client gvk_string reqs (s, calls)).1
        × OneCallEach
            (map (λ (r : DeletionRequest). r.namespace) reqs')
            calls'
            (start_deleter client gvk_string reqs' (s', calls')).1
  workers-OneCallEach reqs reqs' s s' calls calls' =
      (creator-OneCallEach reqs s calls, deleter-OneCallEach reqs' s' calls')
