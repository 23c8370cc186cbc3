-- ===== src/System/Pipeline/Fates.antt =====
-- What becomes of each secret while reviews and workers run.
use cain.Prelude.{
  ℕ, ◌≡◌, sym, ap, subst, ◌∙◌, ◌⊎◌, inl, inr, Option, none, some, List, [], ◌∷◌, ◌++◌, Member,
  first, Member-append_left, Member-append_right,
}
use cain.Go.Text.{GoString}
use cain.Go.Errors.{ForeignError}
use cain.Kube.Secrets.{Secret, SecretClient}
use cain.Kube.Server.{Store, IsServer, put, remove, set-cases}
use cain.Kube.Metrics.{MetricsCall, GroupVersionKind}
use cain.Secrets.Requests.{CreationRequest, DeletionRequest}
use cain.Secrets.Creator.{new_secret}
use cain.Secrets.Promise.{
  Creates, created, existed, failed, failed_late, Deletes, deleted, absent, not_deleted,
  deleted_late,
}
use cain.Certificates.Creator.{Certificate}
use cain.System.Pipeline.{Message, Pipeline, Moves}
use cain.System.Pipeline.Trace.{
  Event, creation, deletion, certification, created_of, deleted_of, AllowsAll, Moves-Follows,
}

-- A deletion of the secret is among the requests.
abbrev pub IsDeleted : List DeletionRequest → GoString → GoString → Type 0
IsDeleted ds ns name = (d : DeletionRequest) × Member d ds × (d.namespace ≡ ns) × (d.name ≡ name)

-- What becomes of a secret while the requests `rs` and `ds` are dealt with: it stays as it is; or it is made
-- of one of the requests, and if there was one before, that has been asked to be deleted; or there is none
-- after it has been asked to be deleted.
pub data Fate (rs : List CreationRequest) (ds : List DeletionRequest) (ns name : GoString)
    (old new : Option Secret) : Type 0 where
  kept : new ≡ old → Fate rs ds ns name old new
  made :
      (req : CreationRequest)
      → Member req rs
      → req.namespace ≡ ns
      → req.name ≡ name
      → new ≡ some (new_secret req)
      → ((old ≡ none) ⊎ IsDeleted ds ns name)
      → Fate rs ds ns name old new
  gone : IsDeleted ds ns name → new ≡ none → Fate rs ds ns name old new

module _ {ns name : GoString} where
  IsDeleted-left :
      {ds : List DeletionRequest} (ds' : List DeletionRequest)
      → IsDeleted ds ns name
      → IsDeleted (ds ++ ds') ns name
  IsDeleted-left ds' (d, m, n, k) = (d, Member-append_left ds' m, n, k)

  IsDeleted-right :
      (ds : List DeletionRequest) {ds' : List DeletionRequest}
      → IsDeleted ds' ns name
      → IsDeleted (ds ++ ds') ns name
  IsDeleted-right ds (d, m, n, k) = (d, Member-append_right ds m, n, k)

  -- Some requests, and then others.
  Fate-append :
      (rs rs' : List CreationRequest) (ds ds' : List DeletionRequest) {old now new : Option Secret}
      → Fate rs ds ns name old now
      → Fate rs' ds' ns name now new
      → Fate (rs ++ rs') (ds ++ ds') ns name old new
  Fate-append rs rs' ds ds' (kept e) (kept e') = kept (e' ∙ e)
  Fate-append rs rs' ds ds' (kept e) (made req m n k stored (inl free)) =
      made req (Member-append_right rs m) n k stored (inl (sym e ∙ free))
  Fate-append rs rs' ds ds' (kept e) (made req m n k stored (inr del)) =
      made req (Member-append_right rs m) n k stored (inr (IsDeleted-right ds del))
  Fate-append rs rs' ds ds' (kept e) (gone del none_left) = gone (IsDeleted-right ds del) none_left
  Fate-append rs rs' ds ds' (made req m n k stored (inl free)) (kept e') =
      made req (Member-append_left rs' m) n k (e' ∙ stored) (inl free)
  Fate-append rs rs' ds ds' (made req m n k stored (inr del)) (kept e') =
      made req (Member-append_left rs' m) n k (e' ∙ stored) (inr (IsDeleted-left ds' del))
  Fate-append rs rs' ds ds' (made req m n k stored was) (made req' m' n' k' stored' (inl free)) = cc
  Fate-append rs rs' ds ds' (made req m n k stored was) (made req' m' n' k' stored' (inr del)) =
      made req' (Member-append_right rs m') n' k' stored' (inr (IsDeleted-right ds del))
  Fate-append rs rs' ds ds' (made req m n k stored was) (gone del none_left) =
      gone (IsDeleted-right ds del) none_left
  Fate-append rs rs' ds ds' (gone del none_left) (kept e') =
      gone (IsDeleted-left ds' del) (e' ∙ none_left)
  Fate-append rs rs' ds ds' (gone del none_left) (made req' m' n' k' stored' was) =
      made req' (Member-append_right rs m') n' k' stored' (inr (IsDeleted-left ds' del))
  Fate-append rs rs' ds ds' (gone del none_left) (gone del' none_left') =
      gone (IsDeleted-left ds' del) none_left'

  put-Fate :
      (req : CreationRequest) (m : Store)
      → m req.namespace req.name ≡ none
      → Fate (req ∷ []) [] ns name (m ns name) (put req.namespace (new_secret req) m ns name)
  unfolding new_secret
  put-Fate req m free = elim (set-cases req.namespace req.name (some (new_secret req)) m ns name) [
    | inl (n, k, stored) ↦ made req first n k stored (inl (cc (n, k, free)))
    | inr same ↦ kept same
  ]

  remove-Fate :
      (req : DeletionRequest) (m : Store)
      → Fate [] (req ∷ []) ns name (m ns name) (remove req.namespace req.name m ns name)
  remove-Fate req m = elim (set-cases req.namespace req.name none m ns name) [
    | inl (n, k, removed) ↦ gone (req, first, n, k) removed
    | inr same ↦ kept same
  ]

  same-Fate :
      (rs : List CreationRequest) (ds : List DeletionRequest) {m m' : Store}
      → m' ≡ m
      → Fate rs ds ns name (m ns name) (m' ns name)
  same-Fate rs ds e = kept (ap (λ (m : Store). m ns name) e)

  Creates-Fate :
      (gvk : GoString) (req : CreationRequest) (m m' : Store) (call : MetricsCall)
      → Creates gvk req m m' call
      → Fate (req ∷ []) [] ns name (m ns name) (m' ns name)
  Creates-Fate gvk req m m' call (created says free stored) =
      subst (λ (k : Store). Fate (req ∷ []) [] ns name (m ns name) (k ns name)) (sym stored)
        (put-Fate req m free)
  Creates-Fate gvk req m m' call (existed says there same) = same-Fate _ _ same
  Creates-Fate gvk req m m' call (failed says same) = same-Fate _ _ same
  Creates-Fate gvk req m m' call (failed_late says free stored) =
      subst (λ (k : Store). Fate (req ∷ []) [] ns name (m ns name) (k ns name)) (sym stored)
        (put-Fate req m free)

  Deletes-Fate :
      (gvk : GoString) (req : DeletionRequest) (m m' : Store) (call : MetricsCall)
      → Deletes gvk req m m' call
      → Fate [] (req ∷ []) ns name (m ns name) (m' ns name)
  Deletes-Fate gvk req m m' call (deleted says removed) =
      subst (λ (k : Store). Fate [] (req ∷ []) ns name (m ns name) (k ns name)) (sym removed)
        (remove-Fate req m)
  Deletes-Fate gvk req m m' call (absent says free same) = same-Fate _ _ same
  Deletes-Fate gvk req m m' call (not_deleted says same) = same-Fate _ _ same
  Deletes-Fate gvk req m m' call (deleted_late says removed) =
      subst (λ (k : Store). Fate [] (req ∷ []) ns name (m ns name) (k ns name)) (sym removed)
        (remove-Fate req m)

  AllowsAll-Fate :
      (sgvk cgvk : GoString) (es : List Event) (m m'' : Store)
      → AllowsAll sgvk cgvk es m m''
      → Fate (created_of es) (deleted_of es) ns name (m ns name) (m'' ns name)
  AllowsAll-Fate sgvk cgvk [] m m'' h = same-Fate _ _ h
  AllowsAll-Fate sgvk cgvk (creation req call ∷ es) m m'' (m', step, h) =
      Fate-append (req ∷ []) (created_of es) [] (deleted_of es)
        (Creates-Fate sgvk req m m' call step) (AllowsAll-Fate sgvk cgvk es m' m'' h)
  AllowsAll-Fate sgvk cgvk (deletion req call ∷ es) m m'' (m', step, h) =
      Fate-append [] (created_of es) (req ∷ []) (deleted_of es)
        (Deletes-Fate sgvk req m m' call step) (AllowsAll-Fate sgvk cgvk es m' m'' h)
  AllowsAll-Fate sgvk cgvk (certification info call ∷ es) m m'' (m', step, h) =
      Fate-append [] (created_of es) [] (deleted_of es) (same-Fate [] [] step.0)
        (AllowsAll-Fate sgvk cgvk es m' m'' h)

module _ {S : Type 0} (secrets : SecretClient S)
    (create : GoString → Certificate → S → Option ForeignError × S)
    (gvk_string : GroupVersionKind → GoString) (issuer : GoString) (view : S → Store) where
  -- The requests of each kind that a run deals with, and for each name in each namespace what becomes of the
  -- secret under it.
  pub record Fates (p q : Pipeline S) : Type 0 where
    pub new_creations : List CreationRequest
    pub new_deletions : List DeletionRequest
    pub created : q.created ≡ p.created ++ new_creations
    pub deleted : q.deleted ≡ p.deleted ++ new_deletions
    pub fate :
        (ns name : GoString)
        → Fate new_creations new_deletions ns name (view p.api ns name) (view q.api ns name)

  -- No secret is ever written over, and none appears or goes for no reason, whatever the interleaving of
  -- reviews and workers and whatever reviews arrive, if the API server keeps to its documentation and creating a certificate changes no
  -- secret. Of a secret that was there before a run, there are three fates: it is there as it was; or the run
  -- has dealt with a request to delete it, and it is gone; or the run has dealt with such a request, and it
  -- has been made anew of one of the creation requests of the run. A secret that was not there is not there
  -- now, or it has been made of one of these requests.
  pub Moves-Fates :
      IsServer secrets view
      → ((ns : GoString) (cert : Certificate) (api : S) → view (create ns cert api).1 ≡ view api)
      → {n : ℕ} {new : List (List Message)} {p q : Pipeline S}
      → Moves secrets create gvk_string issuer n new p q
      → Fates p q
  Moves-Fates server certs ms =
      let (es, h) = Moves-Follows secrets create gvk_string issuer view server certs ms in
      record {
        new_creations = created_of es;
        new_deletions = deleted_of es;
        created = h.created;
        deleted = h.deleted;
        fate = λ ns name. AllowsAll-Fate _ _ es _ _ h.store;
      }
