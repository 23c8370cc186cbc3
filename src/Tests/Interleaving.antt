-- ===== src/Tests/Interleaving.antt =====
-- A review of a JVM pod, and one of a deletion that arrives later, with an API server that keeps a store.
use cain.Prelude.{◌≡◌, refl, ◌⊎◌, ◌<◌, true, false, Option, none, some, List, [], ◌∷◌, ◌+◌, ◌++◌}
use cain.Go.Text.{GoString, text}
use cain.Go.Errors.{ForeignError}
use cain.Kube.Secrets.{Secret, SecretClient}
use cain.Kube.Server.{Store, put, remove, CreateAnswer, DeleteAnswer, IsServer}
use cain.Kube.Metrics.{GroupVersionKind}
use cain.Secrets.Requests.{CreationRequest, DeletionRequest}
use cain.Secrets.Creator.{secret_gvk}
use cain.Certificates.Creator.{Info, Certificate, certificate_gvk, new_certificate}
use cain.Webhook.Review.{create_operation}
use cain.Webhook.Validator.{creation_request, cert_info}
use cain.System.Pipeline.{
  creation, deletion, certification, idle, Pipeline, here, there, Move, to_creator, to_deleter,
  to_certs, password_to_creator, creates, deletes, certifies, Moves, stays, moves, arrives,
  IsNamedMessage, Message, IsDrained, AreNamed,
}
use cain.System.Pipeline.Reviews.{a_deletion, with_cert}
use cain.System.Pipeline.Reviews.Sending.{Asks-IsNamedMessage}
use cain.System.Pipeline.Ends.{moves_left, moves_of, Moves-IsDrained}
use cain.System.Pipeline.Requests.{
  SameItems, creations, deletions, certifications, creations_of, deletions_of, certifications_of,
  concat_map,
}
use cain.System.Pipeline.Totals.{AllMessages, over_reviews}
use cain.System.Pipeline.Bags.{Moves-SameItems}
use cain.System.Pipeline.Order.{PasswordsTaken, Moves-PasswordsTaken}
use cain.System.Pipeline.Trace.{Event, Follows, Moves-Follows}
use cain.System.Pipeline.Fates.{Fates, Moves-Fates}
use cain.Tests.Fixtures.{pod, replica_set_ref, review, validator}

abbrev existing : ForeignError
existing = record { already_exists = true; not_found = false; status = some (text "exists") }

abbrev missing : ForeignError
missing = record { already_exists = false; not_found = true; status = some (text "not found") }

abbrev answer_creation : Option Secret → GoString → Secret → Store → Option ForeignError × Store
answer_creation none ns s m = (none, put ns s m)
answer_creation (some old) ns s m = (some existing, m)

abbrev answer_deletion : Option Secret → GoString → GoString → Store → Option ForeignError × Store
answer_deletion none ns name m = (some missing, m)
answer_deletion (some old) ns name m = (none, remove ns name m)

abbrev server : SecretClient Store
server = record {
  create = λ ns s m. answer_creation (m ns s.name) ns s m;
  delete = λ ns name m. answer_deletion (m ns name) ns name m;
}

creation_lem :
    (found : Option Secret) (ns : GoString) (s : Secret) (m : Store)
    → m ns s.name ≡ found
    → CreateAnswer m ns s (answer_creation found ns s m).0 (answer_creation found ns s m).1
creation_lem none ns s m e = (e, refl)
creation_lem (some old) ns s m e = ((λ free. cc (free, e)), refl)

deletion_lem :
    (found : Option Secret) (ns name : GoString) (m : Store)
    → m ns name ≡ found
    → DeleteAnswer m ns name (answer_deletion found ns name m).0 (answer_deletion found ns name m).1
deletion_lem none ns name m e = (e, refl)
deletion_lem (some old) ns name m e = ((λ free. cc (free, e)), refl)

abbrev view : Store → Store
view m = m

server-IsServer : IsServer server view
server-IsServer = record {
  creation = λ ns s m. creation_lem (m ns s.name) ns s m refl;
  deletion = λ ns name m. deletion_lem (m ns name) ns name m refl;
}

abbrev create_cert : GoString → Certificate → Store → Option ForeignError × Store
create_cert ns cert m = (none, m)

create_cert_lem :
    (ns : GoString) (cert : Certificate) (m : Store) → view (create_cert ns cert m).1 ≡ view m
create_cert_lem ns cert m = refl

abbrev gvk_string : GroupVersionKind → GoString
gvk_string gvk = gvk.kind

abbrev issuer : GoString
issuer = text "issuer"

abbrev asked_secret : CreationRequest
asked_secret = creation_request validator (review create_operation false) replica_set_ref

abbrev asked_cert : Info
asked_cert = cert_info validator pod (review create_operation false) replica_set_ref

abbrev asked_deletion : DeletionRequest
asked_deletion = record { name = text "ca-old"; namespace = text "shop" }

-- One review is in progress at the start, and another arrives.
abbrev arriving : List (List Message)
arriving = (deletion asked_deletion ∷ []) ∷ []

abbrev start : Pipeline Store
start = record {
  reviews = (creation asked_secret ∷ certification asked_cert ∷ []) ∷ [];
  creator = none;
  deleter = none;
  certs = idle;
  api = λ ns name. none;
  calls = [];
  created = [];
  deleted = [];
  certified = [];
}

-- The requests are taken and dealt with in one of the possible orders.
abbrev run : (q : Pipeline Store) × Moves server create_cert gvk_string issuer 8 arriving start q
unfolding new_certificate cert_info
run = (
  _,
  moves (to_creator refl here) (
      arrives (
        moves (to_deleter refl here) (
          moves (creates refl) (
            moves (to_certs refl (there here)) (
              moves (password_to_creator refl refl) (
                moves (deletes refl)
                  (moves (creates refl) (moves (certifies refl refl) stays)))))))),
)

start-AreNamed : AreNamed issuer start
unfolding new_certificate cert_info creation_request
start-AreNamed = record {
  reviews = (
    Asks-IsNamedMessage issuer (text "shop")
        (with_cert asked_secret asked_cert refl refl (_, refl)),
    tt,
  );
  certs = tt;
}

arriving-AreNamed : AllMessages (IsNamedMessage issuer) arriving
arriving-AreNamed = (Asks-IsNamedMessage issuer (text "shop") (a_deletion asked_deletion refl), tt)

run-IsDrained : IsDrained run.0
unfolding run
run-IsDrained = record {
  reviews = (refl, (refl, tt));
  creator = refl;
  deleter = refl;
  certs = refl;
}

Moves-IsDrained_example :
    ((8 ≡ moves_left start + over_reviews moves_of arriving) × IsDrained run.0)
    ⊎ ((8 < moves_left start + over_reviews moves_of arriving)
        × ((r : Pipeline Store) × Move server create_cert gvk_string issuer run.0 r))
Moves-IsDrained_example =
    Moves-IsDrained server create_cert gvk_string issuer start-AreNamed arriving-AreNamed run.1

Moves-SameItems_example :
    SameItems (creations start ++ concat_map (concat_map creations_of) arriving) run.0.created
    × SameItems (deletions start ++ concat_map (concat_map deletions_of) arriving) run.0.deleted
    × SameItems
        (certifications start ++ concat_map (concat_map certifications_of) arriving)
        run.0.certified
Moves-SameItems_example = Moves-SameItems server create_cert gvk_string issuer run.1 run-IsDrained

Moves-PasswordsTaken_example : PasswordsTaken run.0
Moves-PasswordsTaken_example =
    Moves-PasswordsTaken server create_cert gvk_string issuer refl refl run.1

Moves-Follows_example :
    (es : List Event) × Follows view
      (gvk_string secret_gvk)
      (gvk_string certificate_gvk)
      es
      start
      run.0
Moves-Follows_example =
    Moves-Follows server create_cert gvk_string issuer view server-IsServer create_cert_lem run.1

Moves-Fates_example : Fates server create_cert gvk_string issuer view start run.0
Moves-Fates_example =
    Moves-Fates server create_cert gvk_string issuer view server-IsServer create_cert_lem run.1
