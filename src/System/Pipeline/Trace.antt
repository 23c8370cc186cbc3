-- ===== src/System/Pipeline/Trace.antt =====
-- The system against its abstract specification: a store of secrets, and the events that change it.
use cain.Prelude.{
  ℕ, ◌≡◌, refl, sym, ◌∙◌, ap, Option, List, [], ◌∷◌, ◌++◌, map, append-nil, append_assoc,
  map-append, subst,
}
use cain.Go.Text.{GoString}
use cain.Go.Errors.{ForeignError}
use cain.Kube.Secrets.{SecretClient}
use cain.Kube.Server.{Store, IsServer}
use cain.Kube.Metrics.{MetricsCall, GroupVersionKind}
use cain.Secrets.Requests.{CreationRequest, DeletionRequest}
use cain.Secrets.Creator.{secret_gvk}
use cain.Secrets.Promise.{Creates, Deletes, handle_creation-Creates, handle_deletion-Deletes}
use cain.Certificates.Creator.{Info, Certificate, certificate_call, certificate_gvk, submit}
use cain.System.Pipeline.{
  Message, Pipeline, Move, to_creator, to_deleter, to_certs, password_to_creator, creates, deletes,
  certifies, Moves, stays, moves, arrives,
}

-- A request that has been dealt with, with the metrics call that was made for it.
pub data Event : Type 0 where
  creation : CreationRequest → MetricsCall → Event
  deletion : DeletionRequest → MetricsCall → Event
  certification : Info → MetricsCall → Event

abbrev pub event_call : Event → MetricsCall
event_call (creation req call) = call
event_call (deletion req call) = call
event_call (certification info call) = call

abbrev pub created_of : List Event → List CreationRequest
created_of [] = []
created_of (creation req call ∷ es) = req ∷ created_of es
created_of (deletion req call ∷ es) = created_of es
created_of (certification info call ∷ es) = created_of es

abbrev pub deleted_of : List Event → List DeletionRequest
deleted_of [] = []
deleted_of (creation req call ∷ es) = deleted_of es
deleted_of (deletion req call ∷ es) = req ∷ deleted_of es
deleted_of (certification info call ∷ es) = deleted_of es

abbrev pub certified_of : List Event → List Info
certified_of [] = []
certified_of (creation req call ∷ es) = certified_of es
certified_of (deletion req call ∷ es) = certified_of es
certified_of (certification info call ∷ es) = info ∷ certified_of es

-- The specification: what an event may do to the store, and what events in a row may do. `cgvk` and `sgvk`
-- are the texts of the kinds of certificates and secrets.
module _ (sgvk cgvk : GoString) where
  abbrev pub Allows : Event → Store → Store → Type 0
  Allows (creation req call) m m' = Creates sgvk req m m' call
  Allows (deletion req call) m m' = Deletes sgvk req m m' call
  Allows (certification info call) m m' =
      (m' ≡ m)
      × ((failed : Option ForeignError) × (call ≡ certificate_call info.namespace cgvk failed))

  abbrev pub AllowsAll : List Event → Store → Store → Type 0
  AllowsAll [] m m'' = m'' ≡ m
  AllowsAll (e ∷ es) m m'' = (m' : Store) × Allows e m m' × AllowsAll es m' m''

module _ (sgvk cgvk : GoString) where
  AllowsAll-append :
      (es es' : List Event) (m m' m'' : Store)
      → AllowsAll sgvk cgvk es m m'
      → AllowsAll sgvk cgvk es' m' m''
      → AllowsAll sgvk cgvk (es ++ es') m m''
  AllowsAll-append [] es' m m' m'' h h' = subst (λ (n : Store). AllowsAll sgvk cgvk es' n m'') h h'
  AllowsAll-append (e ∷ es) es' m m' m'' (n, step, h) h' =
      (n, step, AllowsAll-append es es' n m' m'' h h')

created_of-append : (es es' : List Event) → created_of (es ++ es') ≡ created_of es ++ created_of es'
created_of-append [] es' = refl
created_of-append (creation req call ∷ es) es' = ap (λ l. req ∷ l) (created_of-append es es')
created_of-append (deletion req call ∷ es) es' = created_of-append es es'
created_of-append (certification info call ∷ es) es' = created_of-append es es'

deleted_of-append : (es es' : List Event) → deleted_of (es ++ es') ≡ deleted_of es ++ deleted_of es'
deleted_of-append [] es' = refl
deleted_of-append (creation req call ∷ es) es' = deleted_of-append es es'
deleted_of-append (deletion req call ∷ es) es' = ap (λ l. req ∷ l) (deleted_of-append es es')
deleted_of-append (certification info call ∷ es) es' = deleted_of-append es es'

certified_of-append :
    (es es' : List Event) → certified_of (es ++ es') ≡ certified_of es ++ certified_of es'
certified_of-append [] es' = refl
certified_of-append (creation req call ∷ es) es' = certified_of-append es es'
certified_of-append (deletion req call ∷ es) es' = certified_of-append es es'
certified_of-append (certification info call ∷ es) es' =
    ap (λ l. info ∷ l) (certified_of-append es es')

-- A list that has grown twice.
after :
    {A : Type 0} (before new new' : List A) {now later both : List A}
    → later ≡ now ++ new'
    → now ≡ before ++ new
    → both ≡ new ++ new'
    → later ≡ before ++ both
after before new new' h' h b =
    h' ∙ ap (λ l. l ++ new') h ∙ append_assoc before new new' ∙ sym (ap (λ l. before ++ l) b)

-- From `p` to `q`, events that the specification allows have been dealt with and reported, in this order.
pub record Follows {S : Type 0} (view : S → Store) (sgvk cgvk : GoString) (es : List Event)
    (p q : Pipeline S) : Type 0 where
  pub store : AllowsAll sgvk cgvk es (view p.api) (view q.api)
  pub calls : q.calls ≡ p.calls ++ map event_call es
  pub created : q.created ≡ p.created ++ created_of es
  pub deleted : q.deleted ≡ p.deleted ++ deleted_of es
  pub certified : q.certified ≡ p.certified ++ certified_of es

module _ {S : Type 0} (secrets : SecretClient S)
    (create : GoString → Certificate → S → Option ForeignError × S)
    (gvk_string : GroupVersionKind → GoString) (issuer : GoString) (view : S → Store) where
  abbrev pub Explained : Pipeline S → Pipeline S → Type 0
  Explained p q =
      (es : List Event) × Follows view (gvk_string secret_gvk) (gvk_string certificate_gvk) es p q

  Explained-nothing :
      (p q : Pipeline S)
      → q.api ≡ p.api
      → q.calls ≡ p.calls
      → q.created ≡ p.created
      → q.deleted ≡ p.deleted
      → q.certified ≡ p.certified
      → Explained p q
  Explained-nothing p q a b c d e = (
    [],
    record {
      store = ap view a;
      calls = b ∙ sym (append-nil _);
      created = c ∙ sym (append-nil _);
      deleted = d ∙ sym (append-nil _);
      certified = e ∙ sym (append-nil _);
    },
  )

  Move-Explained :
      {p q : Pipeline S}
      → IsServer secrets view
      → ((ns : GoString) (cert : Certificate) (api : S) → view (create ns cert api).1 ≡ view api)
      → Move secrets create gvk_string issuer p q
      → Explained p q
  unfolding submit
  Move-Explained server certs (to_creator free t) = Explained-nothing _ _ refl refl refl refl refl
  Move-Explained server certs (to_deleter free t) = Explained-nothing _ _ refl refl refl refl refl
  Move-Explained server certs (to_certs free t) = Explained-nothing _ _ refl refl refl refl refl
  Move-Explained server certs (password_to_creator at free) =
      Explained-nothing _ _ refl refl refl refl refl
  Move-Explained {p} server certs (creates {req} at) =
      let (call, made, promise) =
        handle_creation-Creates secrets view gvk_string server req p.api p.calls in
      (
        creation req call ∷ [],
        record {
          store = (_, promise, refl);
          calls = made;
          created = refl;
          deleted = sym (append-nil _);
          certified = sym (append-nil _);
        },
      )
  Move-Explained {p} server certs (deletes {req} at) =
      let (call, made, promise) =
        handle_deletion-Deletes secrets view gvk_string server req p.api p.calls in
      (
        deletion req call ∷ [],
        record {
          store = (_, promise, refl);
          calls = made;
          created = sym (append-nil _);
          deleted = refl;
          certified = sym (append-nil _);
        },
      )
  Move-Explained {p} server certs (certifies {info} {cert} at made) = (
    certification info _ ∷ [],
    record {
      store = (
        _,
        (certs info.namespace cert p.api, ((create info.namespace cert p.api).0, refl)),
        refl,
      );
      calls = refl;
      created = sym (append-nil _);
      deleted = sym (append-nil _);
      certified = refl;
    },
  )

  Follows-append :
      (es es' : List Event) (p q r : Pipeline S)
      → Follows view (gvk_string secret_gvk) (gvk_string certificate_gvk) es p q
      → Follows view (gvk_string secret_gvk) (gvk_string certificate_gvk) es' q r
      → Follows view (gvk_string secret_gvk) (gvk_string certificate_gvk) (es ++ es') p r
  Follows-append es es' p q r h h' = record {
    store =
        AllowsAll-append (gvk_string secret_gvk) (gvk_string certificate_gvk) es es' _ _ _ h.store
          h'.store;
    calls = after _ _ _ h'.calls h.calls (map-append event_call es es');
    created = after _ _ _ h'.created h.created (created_of-append es es');
    deleted = after _ _ _ h'.deleted h.deleted (deleted_of-append es es');
    certified = after _ _ _ h'.certified h.certified (certified_of-append es es');
  }

  -- The system of reviews and workers refines the specification, whatever the interleaving and whatever
  -- reviews arrive. If the API server
  -- keeps to its documentation, and creating a certificate changes no secret, then for each run there are
  -- events, one for each request that has been dealt with: they follow each other in the order of the metrics
  -- calls, each changes the store as the specification allows for its request and its call, and they lead
  -- from the store before the run to that after it.
  pub Moves-Follows :
      IsServer secrets view
      → ((ns : GoString) (cert : Certificate) (api : S) → view (create ns cert api).1 ≡ view api)
      → {n : ℕ} {new : List (List Message)} {p q : Pipeline S}
      → Moves secrets create gvk_string issuer n new p q
      → (es : List Event) × Follows view (gvk_string secret_gvk) (gvk_string certificate_gvk) es p q
  Moves-Follows server certs {p = p} stays = Explained-nothing p p refl refl refl refl refl
  Moves-Follows server certs (moves {p} {q} {r} m ms) =
      let (es, h) = Move-Explained server certs m in
      let (es', h') = Moves-Follows server certs ms in (es ++ es', Follows-append es es' p q r h h')
  Moves-Follows server certs (arrives {p = p} {r} run) =
      let (es, h) = Moves-Follows server certs run in
      (
        es,
        record {
          store = h.store;
          calls = h.calls;
          created = h.created;
          deleted = h.deleted;
          certified = h.certified;
        },
      )
