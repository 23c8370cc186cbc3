-- ===== src/Webhook/Owner/Stability.antt =====
-- `rootOwner` on a settled API server, from different states.
use cain.Prelude.{ℕ, zero, suc, ◌≡◌, refl, sym, ◌∙◌, Option, none, some, List, [], ◌∷◌, arith}
use cain.Go.Text.{GoString}
use cain.Go.Errors.{Result, ok, err}
use cain.Go.Exec.{Exec, Go, returns, panics, diverges}
use cain.Kube.Meta.{OwnerReference, ObjectMeta}
use cain.Kube.Pods.{Object, object_meta}
use cain.Kube.Client.{Kind, Client, IsSettled}
use cain.Webhook.Owner.{Owner, kind_func, keep_found, follow_owners, root_owner}
use cain.Webhook.Owner.Termination.{
  follow_step, follow_search_fails, follow_read_fails, follow_unknown_kind,
}

module _ {S : Type 0} (client : Client S) (answer : Kind → GoString → GoString → Result Object)
    (settled : IsSettled client answer) (namespace : GoString) where
  abbrev pub IsStable : Go S Owner → Type 0
  IsStable m = (s t u : S) (res : Owner) → m s ≡ returns (res, t) → m u ≡ returns (res, u)

  module _ (recurse : ObjectMeta → OwnerReference → Go S Owner)
      (stable : (obj : ObjectMeta) (ref : OwnerReference) → IsStable (recurse obj ref)) where
    search_stable :
        (ref : OwnerReference) (refs : List OwnerReference) (found : Option OwnerReference)
        (kind : Kind) (owner : Object)
        → kind_func ref ≡ some kind
        → answer kind namespace ref.name ≡ ok owner
        → ((root : Option OwnerReference)
            → IsStable (follow_owners client namespace recurse refs (keep_found found root)))
        → (s t u : S) (res : Owner) (x : Exec (Owner × S)) → recurse (object_meta owner) ref s ≡ x
        → follow_owners client namespace recurse (ref ∷ refs) found s ≡ returns (res, t)
        → follow_owners client namespace recurse (ref ∷ refs) found u ≡ returns (res, u)
    search_stable ref refs found kind owner k a rest s t u res (returns (err e, s')) r h =
        let at_s =
          follow_search_fails client answer settled namespace recurse s ref refs found kind owner e
            s' k a r in
        let at_u =
          follow_search_fails client answer settled namespace recurse u ref refs found kind owner e
            u k a (stable (object_meta owner) ref s s' u (err e) r) in
        ground arith
    search_stable ref refs found kind owner k a rest s t u res (returns (ok root, s')) r h =
        let at_s =
          follow_step client answer settled namespace recurse s ref refs found kind owner root s' k
            a r in
        let at_u =
          follow_step client answer settled namespace recurse u ref refs found kind owner root u k a
            (stable (object_meta owner) ref s s' u (ok root) r) in
        at_u ∙ rest root s' t u res (sym at_s ∙ h)
    search_stable ref refs found kind owner k a rest s t u res (panics why) r h =
        absurd (unfold follow_owners in ground (arith, settled kind namespace ref.name s))
    search_stable ref refs found kind owner k a rest s t u res diverges r h =
        absurd (unfold follow_owners in ground (arith, settled kind namespace ref.name s))

    read_stable :
        (ref : OwnerReference) (refs : List OwnerReference) (found : Option OwnerReference)
        (kind : Kind)
        → kind_func ref ≡ some kind
        → ((root : Option OwnerReference)
            → IsStable (follow_owners client namespace recurse refs (keep_found found root)))
        → (s t u : S) (res : Owner) (x : Result Object) → answer kind namespace ref.name ≡ x
        → follow_owners client namespace recurse (ref ∷ refs) found s ≡ returns (res, t)
        → follow_owners client namespace recurse (ref ∷ refs) found u ≡ returns (res, u)
    read_stable ref refs found kind k rest s t u res (err f) a h =
        let at_s =
          follow_read_fails client answer settled namespace recurse s ref refs found kind f k a in
        let at_u =
          follow_read_fails client answer settled namespace recurse u ref refs found kind f k a in
        ground arith
    read_stable ref refs found kind k rest s t u res (ok owner) a h =
        search_stable ref refs found kind owner k a rest s t u res _ refl h

    round-IsStable :
        (ref : OwnerReference) (refs : List OwnerReference) (found : Option OwnerReference)
        → ((root : Option OwnerReference)
            → IsStable (follow_owners client namespace recurse refs (keep_found found root)))
        → (k : Option Kind) → kind_func ref ≡ k
        → IsStable (follow_owners client namespace recurse (ref ∷ refs) found)
    round-IsStable ref refs found rest none k s t u res h =
        let at_s = follow_unknown_kind client answer settled namespace recurse s ref refs found k in
        let at_u = follow_unknown_kind client answer settled namespace recurse u ref refs found k in
        ground arith
    round-IsStable ref refs found rest (some kind) k s t u res h =
        read_stable ref refs found kind k rest s t u res _ refl h

    follow-IsStable :
        (refs : List OwnerReference) (found : Option OwnerReference)
        → IsStable (follow_owners client namespace recurse refs found)
    follow-IsStable [] none s t u res h = unfold follow_owners in ground arith
    follow-IsStable [] (some root) s t u res h = unfold follow_owners in ground arith
    follow-IsStable (ref ∷ refs) found s t u res h =
        round-IsStable ref refs found (λ root. follow-IsStable refs (keep_found found root)) _ refl
          s t u res h

  owners-IsStable :
      (fuel : ℕ) (obj : ObjectMeta) (ref : Option OwnerReference)
      → ((o : ObjectMeta) (r : OwnerReference)
          → IsStable (root_owner client namespace fuel o (some r)))
      → (refs : List OwnerReference) → obj.owner_references ≡ refs
      → IsStable (root_owner client namespace (suc fuel) obj ref)
  unfolding root_owner
  owners-IsStable fuel obj ref stable [] none_left s t u res h = ground arith
  owners-IsStable fuel obj ref stable (q ∷ refs) listed s t u res h =
      let again =
        follow-IsStable (λ o r. root_owner client namespace fuel o (some r)) stable (q ∷ refs) none
          s t u res (ground arith) in
      ground arith

  -- On a settled API server, a search that returns gives the same result at any other state.
  pub root_owner_stable :
      (fuel : ℕ) (obj : ObjectMeta) (ref : Option OwnerReference) (s t u : S) (res : Owner)
      → root_owner client namespace fuel obj ref s ≡ returns (res, t)
      → root_owner client namespace fuel obj ref u ≡ returns (res, u)
  root_owner_stable zero obj ref s t u res h = absurd (unfold root_owner in cc)
  root_owner_stable (suc fuel) obj ref s t u res h =
      owners-IsStable fuel obj ref (λ o r. root_owner_stable fuel o (some r)) _ refl s t u res h
