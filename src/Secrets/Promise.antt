-- ===== src/Secrets/Promise.antt =====
-- What a worker promises of one request, said of the store of the API server alone, and the handlers of
-- secrets/creator.go and secrets/deleter.go against it.
use cain.Prelude.{
  ◌≡◌, refl, ◌≢◌, ◌⊎◌, inl, inr, Bool-cases, Option, none, some, List, [], ◌∷◌, ◌++◌, arith,
}
use cain.Go.Text.{GoString}
use cain.Go.Errors.{ForeignError}
use cain.Kube.Secrets.{SecretClient, is_status}
use cain.Kube.Server.{Store, put, remove, CreateAnswer, DeleteAnswer, IsServer}
use cain.Kube.Metrics.{
  MetricsCall, GroupVersionKind, resource_already_exists, resource_create_error, resource_created,
  resource_not_found, resource_deleted, resource_delete_error,
}
use cain.Secrets.Requests.{CreationRequest, DeletionRequest}
use cain.Secrets.Creator.{secret_gvk, new_secret, creation_call, handle_creation}
use cain.Secrets.Deleter.{deletion_call, handle_deletion}

-- A creation, from the store `m` to `m'`, with the metrics call that it makes. A secret that is there is
-- never written over; `created` and `already_exists` tell the truth.
pub data Creates (gvk : GoString) (req : CreationRequest) (m m' : Store) (call : MetricsCall)
    : Type 0 where
  created :
      call ≡ resource_created req.namespace gvk
      → m req.namespace req.name ≡ none
      → m' ≡ put req.namespace (new_secret req) m
      → Creates gvk req m m' call
  existed :
      call ≡ resource_already_exists req.namespace gvk
      → m req.namespace req.name ≢ none
      → m' ≡ m
      → Creates gvk req m m' call
  failed : call ≡ resource_create_error req.namespace gvk → m' ≡ m → Creates gvk req m m' call
  failed_late :
      call ≡ resource_create_error req.namespace gvk
      → m req.namespace req.name ≡ none
      → m' ≡ put req.namespace (new_secret req) m
      → Creates gvk req m m' call

-- A deletion. No other secret goes, and `not_found` tells the truth; after the other two calls the secret
-- may be there still: an error that is no status is reported as a deletion.
pub data Deletes (gvk : GoString) (req : DeletionRequest) (m m' : Store) (call : MetricsCall)
    : Type 0 where
  deleted :
      call ≡ resource_deleted req.namespace gvk
      → m' ≡ remove req.namespace req.name m
      → Deletes gvk req m m' call
  absent :
      call ≡ resource_not_found req.namespace gvk
      → m req.namespace req.name ≡ none
      → m' ≡ m
      → Deletes gvk req m m' call
  not_deleted :
      ((call ≡ resource_delete_error req.namespace gvk)
        ⊎ (call ≡ resource_deleted req.namespace gvk))
      → m' ≡ m
      → Deletes gvk req m m' call
  deleted_late :
      call ≡ resource_delete_error req.namespace gvk
      → m' ≡ remove req.namespace req.name m
      → Deletes gvk req m m' call

answer-Creates :
    (gvk : GoString) (req : CreationRequest) (m m' : Store) (answer : Option ForeignError)
    → CreateAnswer m req.namespace (new_secret req) answer m'
    → Creates gvk req m m' (creation_call req.namespace gvk answer)
unfolding creation_call new_secret
answer-Creates gvk req m m' none h = created refl h.0 h.1
answer-Creates gvk req m m' (some e) h = elim (Bool-cases e.already_exists) [
  | inl there ↦ let (present, same) = rw there at h in existed (ground arith) present same
  | inr fresh ↦ elim (rw fresh at h) [
    | inl same ↦ failed (ground arith) same
    | inr (free, stored) ↦ failed_late (ground arith) free stored
  ]
]

answer-Deletes :
    (gvk : GoString) (req : DeletionRequest) (m m' : Store) (answer : Option ForeignError)
    → DeleteAnswer m req.namespace req.name answer m'
    → Deletes gvk req m m' (deletion_call req.namespace gvk answer)
unfolding deletion_call
answer-Deletes gvk req m m' none h = deleted refl h.1
answer-Deletes gvk req m m' (some e) h = elim (Bool-cases e.not_found) [
  | inl gone ↦ let (free, same) = rw gone at h in absent (ground arith) free same
  | inr there ↦ elim (Bool-cases (is_status (some e))) [
    | inl status ↦ elim (rw there at h) [
      | inl same ↦ not_deleted (inl (ground arith)) same
      | inr removed ↦ deleted_late (ground arith) removed
    ]
    | inr plain ↦ elim (rw there at h) [
      | inl same ↦ not_deleted (inr (ground arith)) same
      | inr removed ↦ deleted (ground arith) removed
    ]
  ]
]

module _ {S : Type 0} (client : SecretClient S) (view : S → Store)
    (gvk_string : GroupVersionKind → GoString) (server : IsServer client view) where
  pub handle_creation-Creates :
      (req : CreationRequest) (api : S) (calls : List MetricsCall)
      → (call : MetricsCall) × ((handle_creation client gvk_string req (api, calls)).1
          ≡ calls ++ call ∷ [])
        × Creates
            (gvk_string secret_gvk)
            req
            (view api)
            (view (handle_creation client gvk_string req (api, calls)).0)
            call
  unfolding handle_creation
  handle_creation-Creates req api calls = (
    _,
    refl,
    answer-Creates (gvk_string secret_gvk) req (view api) _ _ (server.creation req.namespace _ api),
  )

  pub handle_deletion-Deletes :
      (req : DeletionRequest) (api : S) (calls : List MetricsCall)
      → (call : MetricsCall) × ((handle_deletion client gvk_string req (api, calls)).1
          ≡ calls ++ call ∷ [])
        × Deletes
            (gvk_string secret_gvk)
            req
            (view api)
            (view (handle_deletion client gvk_string req (api, calls)).0)
            call
  unfolding handle_deletion
  handle_deletion-Deletes req api calls = (
    _,
    refl,
    answer-Deletes (gvk_string secret_gvk) req (view api) _ _ (server.deletion req.namespace _ api),
  )
