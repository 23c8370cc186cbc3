-- ===== src/Webhook/Owner/Ancestors.antt =====
-- What `rootOwner` returns on an API server whose objects nobody changes meanwhile.
use cain.Prelude.{◌≡◌, refl, ◌⊎◌, Option, none, some, List, [], ◌∷◌, arith, Member}
use cain.Go.Text.{GoString, text}
use cain.Go.Errors.{Error, Result, errorf, ok, err, cause}
use cain.Go.Exec.{Exec, Go, returns, panics, diverges}
use cain.Kube.Meta.{OwnerReference, ObjectMeta}
use cain.Kube.Pods.{Object, object_meta}
use cain.Kube.Client.{Kind, Client, IsSettled}
use cain.Webhook.Owner.{Owner, kind_func, top_reference, keep_found, get_owner, follow_owners}

module _ (answer : Kind → GoString → GoString → Result Object) (namespace : GoString) where
  -- The objects above an object: those that reading its owner references leads to.
  pub data Reach : ObjectMeta → ObjectMeta → Type 0 where
    here : (obj : ObjectMeta) → Reach obj obj
    up :
        {obj top : ObjectMeta} (ref : OwnerReference) (kind : Kind) (owner : Object)
        → Member ref obj.owner_references
        → kind_func ref ≡ some kind
        → answer kind namespace ref.name ≡ ok owner
        → Reach (object_meta owner) top
        → Reach obj top

  -- A reference ends the search if its kind has no getter or its object has no owner.
  pub data IsRoot (ref : OwnerReference) : Type 0 where
    unknown_kind : kind_func ref ≡ none → IsRoot ref
    unowned :
        (kind : Kind) (owner : Object)
        → kind_func ref ≡ some kind
        → answer kind namespace ref.name ≡ ok owner
        → (object_meta owner).owner_references ≡ []
        → IsRoot ref

  -- A root of `obj` is a reference of an object above it that ends the search.
  pub record RootOf (obj : ObjectMeta) (ref : OwnerReference) : Type 0 where
    pub top : ObjectMeta
    pub reached : Reach obj top
    pub listed : Member ref top.owner_references
    pub ends : IsRoot ref

  -- A read that the search of `obj` makes fails, and `e` wraps its error.
  pub record FailedRead (obj : ObjectMeta) (e : Error) : Type 0 where
    pub top : ObjectMeta
    pub reached : Reach obj top
    pub ref : OwnerReference
    pub listed : Member ref top.owner_references
    pub kind : Kind
    pub known : kind_func ref ≡ some kind
    pub failure : Error
    pub refused : answer kind namespace ref.name ≡ err failure
    pub caused : cause e ≡ cause failure

  -- The contract of a search whose start led to `ref`: an object without owners answers for itself.
  abbrev pub Contract : ObjectMeta → Option OwnerReference → Owner → Type 0
  Contract obj ref (ok (some root)) =
      (obj.owner_references ≡ []) × (root ≡ top_reference obj ref) ⊎ RootOf obj root
  Contract obj ref (ok none) = ⊥
  Contract obj ref (err e) = FailedRead obj e

module _ {S : Type 0} (client : Client S) (answer : Kind → GoString → GoString → Result Object)
    (settled : IsSettled client answer) (namespace : GoString) where
  -- One round of the loop, by its four ways out.
  pub data Round (recurse : ObjectMeta → OwnerReference → Go S Owner) (ref : OwnerReference)
      (refs : List OwnerReference) (found : Option OwnerReference) (s : S) (res : Owner) (t : S)
      : Type 0 where
    foreign_kind :
        kind_func ref ≡ none → res ≡ ok (some ref) → t ≡ s → Round recurse ref refs found s res t
    read_fails :
        (kind : Kind) (e failure : Error)
        → kind_func ref ≡ some kind
        → answer kind namespace ref.name ≡ err failure
        → res ≡ err e
        → cause e ≡ cause failure
        → t ≡ s
        → Round recurse ref refs found s res t
    search_fails :
        (kind : Kind) (owner : Object) (e inner : Error)
        → kind_func ref ≡ some kind
        → answer kind namespace ref.name ≡ ok owner
        → recurse (object_meta owner) ref s ≡ returns (err inner, t)
        → res ≡ err e
        → cause e ≡ cause inner
        → Round recurse ref refs found s res t
    goes_on :
        (kind : Kind) (owner : Object) (root : Option OwnerReference) (u : S)
        → kind_func ref ≡ some kind
        → answer kind namespace ref.name ≡ ok owner
        → recurse (object_meta owner) ref s ≡ returns (ok root, u)
        → follow_owners client namespace recurse refs (keep_found found root) u ≡ returns (res, t)
        → Round recurse ref refs found s res t

  module _ (recurse : ObjectMeta → OwnerReference → Go S Owner) (ref : OwnerReference)
      (refs : List OwnerReference) (found : Option OwnerReference) (s : S) (res : Owner)
      (t : S) where
    Round-of_search :
        (kind : Kind) (owner : Object) (x : Exec (Owner × S))
        → kind_func ref ≡ some kind
        → answer kind namespace ref.name ≡ ok owner
        → recurse (object_meta owner) ref s ≡ x
        → follow_owners client namespace recurse (ref ∷ refs) found s ≡ returns (res, t)
        → Round recurse ref refs found s res t
    unfolding follow_owners get_owner
    Round-of_search kind owner (returns (err inner, u)) k a r h =
        search_fails kind owner
          (errorf (text "root owner for %s %q: %w") (ref.kind ∷ ref.name ∷ []) inner) inner k a
          (ground (arith, settled kind namespace ref.name s))
          (ground (arith, settled kind namespace ref.name s)) refl
    Round-of_search kind owner (returns (ok root, u)) k a r h =
        goes_on kind owner root u k a r (ground (arith, settled kind namespace ref.name s))
    Round-of_search kind owner (panics why) k a r h =
        absurd (ground (arith, settled kind namespace ref.name s))
    Round-of_search kind owner diverges k a r h =
        absurd (ground (arith, settled kind namespace ref.name s))

    Round-of_read :
        (kind : Kind) (x : Result Object)
        → kind_func ref ≡ some kind
        → answer kind namespace ref.name ≡ x
        → follow_owners client namespace recurse (ref ∷ refs) found s ≡ returns (res, t)
        → Round recurse ref refs found s res t
    unfolding follow_owners get_owner
    Round-of_read kind (err failure) k a h =
        read_fails kind (errorf (text "getting %s %q: %w") (ref.kind ∷ ref.name ∷ []) failure)
          failure k a (ground (arith, settled kind namespace ref.name s)) refl
          (ground (arith, settled kind namespace ref.name s))
    Round-of_read kind (ok owner) k a h =
        Round-of_search kind owner (recurse (object_meta owner) ref s) k a refl h

    pub Round-inversion :
        (k : Option Kind)
        → kind_func ref ≡ k
        → follow_owners client namespace recurse (ref ∷ refs) found s ≡ returns (res, t)
        → Round recurse ref refs found s res t
    unfolding follow_owners
    Round-inversion none k h = foreign_kind k (ground arith) (ground arith)
    Round-inversion (some kind) k h = Round-of_read kind (answer kind namespace ref.name) k refl h
