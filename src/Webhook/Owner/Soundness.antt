-- ===== src/Webhook/Owner/Soundness.antt =====
-- `rootOwner` meets its contract.
use cain.Prelude.{
  ℕ, zero, suc, ◌≡◌, refl, ◌∙◌, inl, inr, Option, none, some, List, [], ◌∷◌, arith, Member, first,
  later, subst,
}
use cain.Go.Text.{GoString}
use cain.Go.Errors.{Error, Result, ok, err, cause}
use cain.Go.Exec.{Go, returns}
use cain.Kube.Meta.{OwnerReference, ObjectMeta}
use cain.Kube.Pods.{Object, object_meta}
use cain.Kube.Client.{Kind, Client, IsSettled}
use cain.Webhook.Owner.{Owner, kind_func, follow_owners, root_owner, top_reference}
use cain.Webhook.Owner.Ancestors.{
  here, up, unknown_kind, unowned, RootOf, FailedRead, Contract, foreign_kind, read_fails,
  search_fails, goes_on, Round-inversion,
}

module _ (answer : Kind → GoString → GoString → Result Object) (namespace : GoString) where
  -- One more reference below what is already known of its object.
  RootOf-up :
      {obj : ObjectMeta} {root : OwnerReference} (ref : OwnerReference) (kind : Kind)
      (owner : Object)
      → Member ref obj.owner_references
      → kind_func ref ≡ some kind
      → answer kind namespace ref.name ≡ ok owner
      → RootOf answer namespace (object_meta owner) root
      → RootOf answer namespace obj root
  RootOf-up ref kind owner m k a r = record {
    top = r.top;
    reached = up ref kind owner m k a r.reached;
    listed = r.listed;
    ends = r.ends;
  }

  FailedRead-up :
      {obj : ObjectMeta} (e : Error) {inner : Error} (ref : OwnerReference) (kind : Kind)
      (owner : Object)
      → Member ref obj.owner_references
      → kind_func ref ≡ some kind
      → answer kind namespace ref.name ≡ ok owner
      → cause e ≡ cause inner
      → FailedRead answer namespace (object_meta owner) inner
      → FailedRead answer namespace obj e
  FailedRead-up e ref kind owner m k a c r = record {
    top = r.top;
    reached = up ref kind owner m k a r.reached;
    ref = r.ref;
    listed = r.listed;
    kind = r.kind;
    known = r.known;
    failure = r.failure;
    refused = r.refused;
    caused = c ∙ r.caused;
  }

  -- What the search above a reference finds is a root of the object that lists it.
  root_above :
      {obj : ObjectMeta} (ref : OwnerReference) (kind : Kind) (owner : Object)
      (root : Option OwnerReference)
      → Member ref obj.owner_references
      → kind_func ref ≡ some kind
      → answer kind namespace ref.name ≡ ok owner
      → Contract answer namespace (object_meta owner) (some ref) (ok root)
      → (r : OwnerReference) × (root ≡ some r) × RootOf answer namespace obj r
  root_above ref kind owner none m k a c = absurd c
  root_above {obj} ref kind owner (some r) m k a (inl (unowned_owner, same)) = (
    r,
    refl,
    record {
      top = obj;
      reached = here obj;
      listed = rw same m;
      ends = rw same (unowned kind owner k a unowned_owner);
    },
  )
  root_above ref kind owner (some r) m k a (inr above) =
      (r, refl, RootOf-up ref kind owner m k a above)

  -- The contract of the loop: a root is one of the object that lists the references.
  abbrev LoopContract : ObjectMeta → Owner → Type 0
  LoopContract obj (ok (some root)) = RootOf answer namespace obj root
  LoopContract obj (ok none) = ⊥
  LoopContract obj (err e) = FailedRead answer namespace obj e

module _ (answer : Kind → GoString → GoString → Result Object) (namespace : GoString) where
  LoopContract-Contract :
      (obj : ObjectMeta) (ref : Option OwnerReference) (res : Owner)
      → LoopContract answer namespace obj res
      → Contract answer namespace obj ref res
  LoopContract-Contract obj ref (ok (some root)) found = inr found
  LoopContract-Contract obj ref (ok none) found = found
  LoopContract-Contract obj ref (err e) found = found

-- The loop has a root already, or a reference left.
abbrev CanFind : List OwnerReference → Option OwnerReference → Type 0
CanFind [] none = ⊥
CanFind [] (some root) = Unit
CanFind (ref ∷ refs) found = Unit

CanFind-some : (refs : List OwnerReference) (root : OwnerReference) → CanFind refs (some root)
CanFind-some [] root = tt
CanFind-some (ref ∷ refs) root = tt

module _ {S : Type 0} (client : Client S) (answer : Kind → GoString → GoString → Result Object)
    (settled : IsSettled client answer) (namespace : GoString) where
  module _ (recurse : ObjectMeta → OwnerReference → Go S Owner)
      (sound : (obj : ObjectMeta) (ref : OwnerReference) (s : S) (res : Owner) (t : S)
        → recurse obj ref s ≡ returns (res, t)
        → Contract answer namespace obj (some ref) res × (t ≡ s))
      (obj : ObjectMeta) where
    follow_sound :
        (refs : List OwnerReference) (found : Option OwnerReference) (s : S) (res : Owner) (t : S)
        → CanFind refs found
        → ((r : OwnerReference) → Member r refs → Member r obj.owner_references)
        → ((r : OwnerReference) → found ≡ some r → RootOf answer namespace obj r)
        → follow_owners client namespace recurse refs found s ≡ returns (res, t)
        → LoopContract answer namespace obj res × (t ≡ s)
    follow_sound [] none s res t can members known h = absurd can
    follow_sound [] (some root) s res t can members known h =
        let same : res ≡ ok (some root) = unfold follow_owners in ground arith in
        let kept : t ≡ s = unfold follow_owners in ground arith in (rw same (known root refl), kept)
    follow_sound (ref ∷ refs) found s res t can members known h =
        elim (Round-inversion client answer settled namespace recurse ref refs found s res t
          (kind_func ref) refl h) [
            | foreign_kind k same st ↦ (
              rw same (record {
                top = obj;
                reached = here obj;
                listed = members ref first;
                ends = unknown_kind k;
              }),
              st,
            )
            | read_fails kind e failure k a same c st ↦ (
              rw same (record {
                top = obj;
                reached = here obj;
                ref = ref;
                listed = members ref first;
                kind = kind;
                known = k;
                failure = failure;
                refused = a;
                caused = c;
              }),
              st,
            )
            | search_fails kind owner e inner k a r same c ↦
                (let (inside, st) = sound (object_meta owner) ref s (err inner) t r in
                  (
                    rw same (
                        FailedRead-up answer namespace e ref kind owner (members ref first) k a c
                          inside),
                    st,
                  ))
            | goes_on kind owner root u k a r rest ↦
                (let (inside, us) = sound (object_meta owner) ref s (ok root) u r in
                  let (found', is_found, above) =
                    root_above answer namespace {obj = obj} ref kind owner root (members ref first)
                      k a inside in
                  let (result, tu) =
                    follow_sound refs (some found') u res t (CanFind-some refs found')
                      (λ q m. members q (later m))
                      (λ q e. subst (RootOf answer namespace obj) (cc) above)
                      (ground (arith, is_found)) in
                  (result, tu ∙ us))
          ]

  -- The search with one more unit of fuel than a search that meets its contract.
  by_owners :
      (fuel : ℕ) (obj : ObjectMeta) (ref : Option OwnerReference) (s : S) (res : Owner) (t : S)
      → ((owner : ObjectMeta) (r : OwnerReference) (s' : S) (res' : Owner) (t' : S)
          → root_owner client namespace fuel owner (some r) s' ≡ returns (res', t')
          → Contract answer namespace owner (some r) res' × (t' ≡ s'))
      → (refs : List OwnerReference) → obj.owner_references ≡ refs
      → root_owner client namespace (suc fuel) obj ref s ≡ returns (res, t)
      → Contract answer namespace obj ref res × (t ≡ s)
  unfolding root_owner
  by_owners fuel obj ref s res t sound [] none_left h =
      let same : res ≡ ok (some (top_reference obj ref)) = ground arith in
      (rw same (inl (none_left, refl)), ground arith)
  by_owners fuel obj ref s res t sound (q ∷ refs) listed h =
      let (result, st) =
        follow_sound (λ owner r. root_owner client namespace fuel owner (some r)) sound obj
          (q ∷ refs) none s res t tt (λ r m. rw listed m) (λ r e. cc) (ground arith) in
      (LoopContract-Contract answer namespace obj ref res result, st)

  -- On an API server whose objects do not change, a search that returns finds, for an object
  -- without owners, the object's own reference, and for any other a root reference of an object
  -- above it; or it returns an error that wraps that of a failed read above the object. It never
  -- returns nil without an error, and it changes nothing.
  pub root_owner_sound :
      (fuel : ℕ) (obj : ObjectMeta) (ref : Option OwnerReference) (s : S) (res : Owner) (t : S)
      → root_owner client namespace fuel obj ref s ≡ returns (res, t)
      → Contract answer namespace obj ref res × (t ≡ s)
  root_owner_sound zero obj ref s res t h = absurd (unfold root_owner in cc)
  root_owner_sound (suc fuel) obj ref s res t h =
      by_owners fuel obj ref s res t (λ owner r. root_owner_sound fuel owner (some r))
        obj.owner_references refl h
