-- ===== src/Tests/Owners.antt =====
-- Searches for the root owner: of a pod of a replica set, and of an object that owns itself.
use cain.Prelude.{ℕ, ◌<◌, ◌≡◌, refl, ap, none, some, List, [], ◌∷◌, arith, Member, length}
use cain.Go.Text.{GoString, text, str_eq}
use cain.Go.Errors.{Result, ok}
use cain.Go.Exec.{returns, diverges}
use cain.Go.Maps.{lookup}
use cain.Kube.Meta.{OwnerReference, ObjectMeta}
use cain.Kube.Pods.{Object, other, object_meta}
use cain.Kube.Client.{Kind, job, Client, IsSettled}
use cain.Webhook.Owner.{Owner, kind_func, root_owner}
use cain.Webhook.Owner.Ancestors.{Contract}
use cain.Webhook.Owner.Soundness.{root_owner_sound}
use cain.Webhook.Owner.Termination.{IsRanked, IsEndless, root_owner_total, root_owner_endless}
use cain.Tests.Fixtures.{answer, client, client-IsSettled, meta, pod, replica_set_ref}

owner_of_pod :
    root_owner client (text "shop") 2 pod.meta none tt ≡ returns (ok (some replica_set_ref), tt)
unfolding root_owner kind_func lookup str_eq text
owner_of_pod = refl

root_owner_sound_example :
    Contract answer (text "shop") pod.meta none (ok (some replica_set_ref)) × (tt {0} ≡ tt)
root_owner_sound_example =
    root_owner_sound client answer client-IsSettled (text "shop") 2 pod.meta none tt
      (ok (some replica_set_ref)) tt owner_of_pod

-- The API server of the tests answers with objects that have no owner.
abbrev rank : ObjectMeta → ℕ
rank obj = length obj.owner_references

rank-IsRanked : IsRanked answer (text "shop") rank
rank-IsRanked obj ref kind owner m k a = lower obj.owner_references m
  where
    lower : (refs : List OwnerReference) → Member ref refs → rank (object_meta owner) < length refs
    lower [] m = elim m [ ]
    lower (r ∷ refs) m = ground arith

root_owner_total_example :
    (res : Owner) × (root_owner client (text "shop") 2 pod.meta none tt ≡ returns (res, tt))
    × Contract answer (text "shop") pod.meta none res
root_owner_total_example =
    root_owner_total client answer client-IsSettled (text "shop") rank rank-IsRanked 2 pod.meta none
      tt (omega arith)

-- A job whose owner reference names the job itself.
abbrev self_ref : OwnerReference
self_ref = record { kind = text "Job"; name = text "self"; uid = text "2" }

abbrev self_owned : ObjectMeta
self_owned = record (meta none) { name = text "self"; owner_references = self_ref ∷ [] }

abbrev self_answer : Kind → GoString → GoString → Result Object
self_answer kind ns name = ok (other self_owned)

abbrev self_client : Client Unit
self_client = record { get = λ kind ns name s. (self_answer kind ns name, s) }

self_client-IsSettled : IsSettled self_client self_answer
self_client-IsSettled kind ns name s = refl

self-IsEndless : IsEndless self_answer (text "shop") (λ obj. obj ≡ self_owned)
unfolding kind_func lookup str_eq text
self-IsEndless obj e = (
  self_ref,
  [],
  job,
  other self_owned,
  ap (λ (o : ObjectMeta). o.owner_references) e,
  refl,
  refl,
  refl,
)

root_owner_endless_example : root_owner self_client (text "shop") 100 self_owned none tt ≡ diverges
root_owner_endless_example =
    root_owner_endless self_client self_answer self_client-IsSettled (text "shop")
      (λ obj. obj ≡ self_owned) self-IsEndless 100 self_owned none tt refl
