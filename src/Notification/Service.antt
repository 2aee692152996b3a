-- ===== src/Notification/Service.antt =====
-- service.go of backend/internal/notification. Beside the table, a request changes what it has
-- handed to the broker and which pushes it has started, oldest first; that these fail is only logged.
-- Members is the query of the classrooms' repository.
use smartclass.Prelude.{
  ℕ, suc, String, Bool, not, Option, none, some, List, [], ◌∷◌, ◌++◌, map, if◌then◌else◌,
}
use smartclass.Prelude.Int.{ℤ}
use smartclass.Prelude.Text.{Text}
use smartclass.Platform.Errors.{
  Result, ok, bad_request, not_found_as, notification_not_found, reject_if,
}
use smartclass.Platform.Exec.{Exec, mapping, lift, pure, ◌>>=◌}
use smartclass.Platform.Context.{Ctx}
use smartclass.Platform.Uuids.{Uuids}
use smartclass.Realtime.Events.{Event, user_topic}
use smartclass.Classroom.Repository.{Db, members_of}
use smartclass.Notification.Repository
use smartclass.Notification.Repository.{Notification, type_valid}

pub record Input : Type 0 where
  pub user_id : ℕ
  pub classroom_id : Option ℕ
  pub type : String
  pub title : String
  pub message : String
  pub metadata : Option String

pub record Outbox : Type 0 where
  pub inbox : Repository.Table
  pub events : List Event
  pub pushes : List Notification

-- What the service was built with: the spelling of uuids, the JSON of a notification's event, and
-- whether there is a pusher.
pub record Setup : Type 0 where
  pub uuids : Uuids
  pub payload : Notification → Text
  pub has_pusher : Bool

abbrev pub on_inbox : {A : Type 0} → Exec Repository.Table A → Exec Outbox A
on_inbox m o = ((m o.inbox).0, record o { inbox = (m o.inbox).1 })

-- toNotification; `i` counts the uuids that the request has drawn
unfoldable pub to_notification : Ctx → ℕ → Input → Notification
to_notification c i input = record {
  id = c.fresh i;
  user_id = input.user_id;
  classroom_id = input.classroom_id;
  type = input.type;
  title = input.title;
  message = input.message;
  metadata = input.metadata;
  read_at = none;
  created_at = 0;
}

abbrev pub event_of : Setup → Notification → Event
event_of s n = record {
  version = 1;
  topic = user_topic s.uuids n.user_id;
  type = "notification.created";
  payload = s.payload n;
}

-- The loop that publishes, and the one that pushes
abbrev pub announce : Setup → List Notification → Exec Outbox (Unit {0})
announce s ns o = (
  ok tt,
  record o {
    events = o.events ++ map (event_of s) ns;
    pushes = if s.has_pusher then o.pushes ++ ns else o.pushes;
  },
)

unfoldable pub create_for_user : Setup → Ctx → Input → Exec Outbox (List Notification)
create_for_user s c input = lift (reject_if (not (type_valid input.type)) bad_request) >>= λ _.
    on_inbox (Repository.create_batch c (to_notification c 0 input ∷ [])) >>= λ ns.
    announce s ns >>= λ _. pure ns

-- One notification for each member
unfoldable pub addressed : Ctx → ℕ → ℕ → Input → List ℕ → List Notification
addressed c i classroom_id input [] = []
addressed c i classroom_id input (uid ∷ uids) =
    record (to_notification c i input) { user_id = uid; classroom_id = some classroom_id }
    ∷ addressed c (suc i) classroom_id input uids

-- Without members CreateBatch and the loops below do nothing, as the early return does.
unfoldable pub create_for_classroom : Setup → Ctx → Db → ℕ → Input → Exec Outbox (List Notification)
create_for_classroom s c db classroom_id input =
    lift (reject_if (not (type_valid input.type)) bad_request) >>= λ _.
    lift (members_of c db classroom_id) >>= λ uids.
    on_inbox (Repository.create_batch c (addressed c 0 classroom_id input uids)) >>= λ ns.
    announce s ns >>= λ _. pure ns

-- Service.List
unfoldable pub list_notifications :
    Ctx → Repository.Table → ℕ → Bool → ℤ → ℤ → Result (List (ℕ × Notification))
list_notifications c t user_id only_unread limit offset =
    Repository.list_by_user c t user_id only_unread limit offset

unfoldable pub mark_read : Ctx → ℕ → ℕ → Exec Repository.Table (Unit {0})
mark_read c user_id id =
    mapping (not_found_as notification_not_found) (Repository.mark_read c user_id id)
