-- ===== src/Webhook/Owner/Termination.antt =====
-- When `rootOwner` returns, and when it recurses forever.
use cain.Prelude.{
  ℕ, zero, suc, ◌<◌, ◌≡◌, refl, ◌∙◌, Option, none, some, List, [], ◌∷◌, arith, Member, first, later,
}
use cain.Go.Text.{GoString, text}
use cain.Go.Errors.{Error, Result, errorf, ok, err}
use cain.Go.Exec.{Go, returns, diverges}
use cain.Kube.Meta.{OwnerReference, ObjectMeta}
use cain.Kube.Pods.{Object, object_meta}
use cain.Kube.Client.{Kind, Client, IsSettled}
use cain.Webhook.Owner.{
  Owner, kind_func, top_reference, keep_found, follow_owners, root_owner, err_no_root_owner_found,
}
use cain.Webhook.Owner.Ancestors.{Contract}
use cain.Webhook.Owner.Soundness.{root_owner_sound}

module _ (answer : Kind → GoString → GoString → Result Object) (namespace : GoString) where
  -- An owner that a reference leads to has a lower rank: the owner references have no cycle.
  abbrev pub IsRanked : (ObjectMeta → ℕ) → Type 0
  IsRanked rank =
      (obj : ObjectMeta) (ref : OwnerReference) (kind : Kind) (owner : Object)
      → Member ref obj.owner_references
      → kind_func ref ≡ some kind
      → answer kind namespace ref.name ≡ ok owner
      → rank (object_meta owner) < rank obj

  -- The first reference of every object of the class leads to an object of the class.
  abbrev pub IsEndless : (ObjectMeta → Type 0) → Type 0
  IsEndless P =
      (obj : ObjectMeta)
      → P obj
      → (ref : OwnerReference) × (refs : List OwnerReference) × (kind : Kind) × (owner : Object)
        × (obj.owner_references ≡ ref ∷ refs)
        × (kind_func ref ≡ some kind)
        × (answer kind namespace ref.name ≡ ok owner)
        × P (object_meta owner)

module _ {S : Type 0} (client : Client S) (answer : Kind → GoString → GoString → Result Object)
    (settled : IsSettled client answer) (namespace : GoString) where
  abbrev Returns : Go S Owner → S → Type 0
  Returns m s = (res : Owner) × (m s ≡ returns (res, s))

  module _ (recurse : ObjectMeta → OwnerReference → Go S Owner) (s : S) (ref : OwnerReference)
      (refs : List OwnerReference) (found : Option OwnerReference) where
    -- A round of the loop, on each of its ways.
    pub follow_step :
        (kind : Kind) (owner : Object) (root : Option OwnerReference) (u : S)
        → kind_func ref ≡ some kind
        → answer kind namespace ref.name ≡ ok owner
        → recurse (object_meta owner) ref s ≡ returns (ok root, u)
        → follow_owners client namespace recurse (ref ∷ refs) found s
          ≡ follow_owners client namespace recurse refs (keep_found found root) u
    unfolding follow_owners
    follow_step kind owner root u k a r = ground (arith, settled kind namespace ref.name s)

    pub follow_diverges :
        (kind : Kind) (owner : Object)
        → kind_func ref ≡ some kind
        → answer kind namespace ref.name ≡ ok owner
        → recurse (object_meta owner) ref s ≡ diverges
        → follow_owners client namespace recurse (ref ∷ refs) found s ≡ diverges
    unfolding follow_owners
    follow_diverges kind owner k a r = ground (arith, settled kind namespace ref.name s)

    pub follow_search_fails :
        (kind : Kind) (owner : Object) (e : Error) (u : S)
        → kind_func ref ≡ some kind
        → answer kind namespace ref.name ≡ ok owner
        → recurse (object_meta owner) ref s ≡ returns (err e, u)
        → follow_owners client namespace recurse (ref ∷ refs) found s
          ≡ returns (err (errorf (text "root owner for %s %q: %w") (ref.kind ∷ ref.name ∷ []) e), u)
    unfolding follow_owners
    follow_search_fails kind owner e u k a r = ground (arith, settled kind namespace ref.name s)

    pub follow_read_fails :
        (kind : Kind) (e : Error)
        → kind_func ref ≡ some kind
        → answer kind namespace ref.name ≡ err e
        → follow_owners client namespace recurse (ref ∷ refs) found s
          ≡ returns (err (errorf (text "getting %s %q: %w") (ref.kind ∷ ref.name ∷ []) e), s)
    unfolding follow_owners
    follow_read_fails kind e k a = ground (arith, settled kind namespace ref.name s)

    pub follow_unknown_kind :
        kind_func ref ≡ none
        → follow_owners client namespace recurse (ref ∷ refs) found s ≡ returns (ok (some ref), s)
    unfolding follow_owners
    follow_unknown_kind k = ground arith

    round-Returns :
        (k : Option Kind)
        → kind_func ref ≡ k
        → ((kind : Kind) (owner : Object)
            → kind_func ref ≡ some kind
            → answer kind namespace ref.name ≡ ok owner
            → Returns (recurse (object_meta owner) ref) s)
        → ((root : Option OwnerReference)
            → Returns (follow_owners client namespace recurse refs (keep_found found root)) s)
        → Returns (follow_owners client namespace recurse (ref ∷ refs) found) s
    round-Returns none k total rest = (ok (some ref), follow_unknown_kind k)
    round-Returns (some kind) k total rest = by_read (answer kind namespace ref.name) refl
      where
        by_search :
            (owner : Object)
            → answer kind namespace ref.name ≡ ok owner
            → (res : Owner) → recurse (object_meta owner) ref s ≡ returns (res, s)
            → Returns (follow_owners client namespace recurse (ref ∷ refs) found) s
        by_search owner a (err e) r = (_, follow_search_fails kind owner e s k a r)
        by_search owner a (ok root) r =
            let (res, h) = rest root in (res, follow_step kind owner root s k a r ∙ h)

        by_read :
            (x : Result Object)
            → answer kind namespace ref.name ≡ x
            → Returns (follow_owners client namespace recurse (ref ∷ refs) found) s
        by_read (err e) a = (_, follow_read_fails kind e k a)
        by_read (ok owner) a = let (res, r) = total kind owner k a in by_search owner a res r

  follow-Returns :
      (recurse : ObjectMeta → OwnerReference → Go S Owner) (s : S) (refs : List OwnerReference)
      (found : Option OwnerReference)
      → ((ref : OwnerReference) (kind : Kind) (owner : Object)
          → Member ref refs
          → kind_func ref ≡ some kind
          → answer kind namespace ref.name ≡ ok owner
          → Returns (recurse (object_meta owner) ref) s)
      → Returns (follow_owners client namespace recurse refs found) s
  follow-Returns recurse s [] none total =
      (err err_no_root_owner_found, unfold follow_owners in refl)
  follow-Returns recurse s [] (some root) total = (ok (some root), unfold follow_owners in refl)
  follow-Returns recurse s (ref ∷ refs) found total =
      round-Returns recurse s ref refs found (kind_func ref) refl
        (λ kind owner. total ref kind owner first)
        (λ root.
          follow-Returns recurse s refs (keep_found found root)
            (λ r kind owner m. total r kind owner (later m)))

  root_owner_step :
      (fuel : ℕ) (obj : ObjectMeta) (ref : Option OwnerReference) (s : S)
      → ((r : OwnerReference) (kind : Kind) (owner : Object)
          → Member r obj.owner_references
          → kind_func r ≡ some kind
          → answer kind namespace r.name ≡ ok owner
          → Returns (root_owner client namespace fuel (object_meta owner) (some r)) s)
      → (refs : List OwnerReference) → obj.owner_references ≡ refs
      → Returns (root_owner client namespace (suc fuel) obj ref) s
  unfolding root_owner
  root_owner_step fuel obj ref s total [] none_left =
      (ok (some (top_reference obj ref)), ground arith)
  root_owner_step fuel obj ref s total (q ∷ refs) listed =
      let (res, h) =
        follow-Returns (λ owner r. root_owner client namespace fuel owner (some r)) s (q ∷ refs)
          none (λ r kind owner m. total r kind owner (rw listed m)) in
      (res, ground arith)

  root_owner-Returns :
      (rank : ObjectMeta → ℕ)
      → IsRanked answer namespace rank
      → (fuel : ℕ) (obj : ObjectMeta) (ref : Option OwnerReference) (s : S) → rank obj < fuel
      → Returns (root_owner client namespace fuel obj ref) s
  root_owner-Returns rank ranked zero obj ref s enough = absurd (omega arith)
  root_owner-Returns rank ranked (suc fuel) obj ref s enough =
      root_owner_step fuel obj ref s
        (λ r kind owner m k a.
          let lower : rank (object_meta owner) < rank obj = ranked obj r kind owner m k a in
          root_owner-Returns rank ranked fuel (object_meta owner) (some r) s (omega arith))
        obj.owner_references refl

  -- If the owner references have no cycle and the fuel is above the rank of the object, the search
  -- returns and meets its contract: a root, or the error of a read. The API server is settled.
  pub root_owner_total :
      (rank : ObjectMeta → ℕ)
      → IsRanked answer namespace rank
      → (fuel : ℕ) (obj : ObjectMeta) (ref : Option OwnerReference) (s : S) → rank obj < fuel
      → (res : Owner) × (root_owner client namespace fuel obj ref s ≡ returns (res, s))
        × Contract answer namespace obj ref res
  root_owner_total rank ranked fuel obj ref s enough =
      let (res, h) = root_owner-Returns rank ranked fuel obj ref s enough in
      (res, h, (root_owner_sound client answer settled namespace fuel obj ref s res s h).0)

  -- On a settled API server, where the first owner reference of each object of a class leads back into
  -- the class, as that of an object that owns itself, the search of such an object never returns,
  -- whatever the fuel.
  pub root_owner_endless :
      (P : ObjectMeta → Type 0)
      → IsEndless answer namespace P
      → (fuel : ℕ) (obj : ObjectMeta) (ref : Option OwnerReference) (s : S) → P obj
      → root_owner client namespace fuel obj ref s ≡ diverges
  unfolding root_owner
  root_owner_endless P endless zero obj ref s p = refl
  root_owner_endless P endless (suc fuel) obj ref s p =
      let (q, refs, kind, owner, listed, k, a, again) = endless obj p in
      let h =
        follow_diverges (λ o r. root_owner client namespace fuel o (some r)) s q refs none kind
          owner k a (root_owner_endless P endless fuel (object_meta owner) (some q) s again) in
      ground arith
