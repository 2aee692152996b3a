-- ===== src/Notification/Examples.antt =====
-- Classroom 5 with the members 1 and 2, and a device that goes offline.
use smartclass.Prelude.{
  ℕ, ◌+◌, String, true, false, Option, none, some, List, [], ◌∷◌, ◌≡◌, refl, ◌==◌, nat_eq,
  string_eq, pair_eq, arith,
}
use smartclass.Prelude.Dict.{empty, get, put, rows}
use smartclass.Prelude.Sort.{sort_with}
use smartclass.Prelude.Text.{text}
use smartclass.Platform.Errors.{err, internal}
use smartclass.Platform.Context.{Ctx}
use smartclass.Classroom.Repository.{Db, members_of}
use smartclass.Notification.Repository.{
  Notification, type_valid, type_warning, prepare, create_batch,
}
use smartclass.Notification.Service.{
  Input, Outbox, Setup, to_notification, addressed, create_for_classroom,
}
use smartclass.Notification.Trigger.{
  Key, Engine, is_recent, throttle, alert_input, on_device_state_change,
}
use smartclass.Notification.Cooldown.{IsClock, answers, expected, answers-expected, lost_alert}
use smartclass.Platform.Examples.{letters}

abbrev at : ℕ → Ctx
at now = record { now = now; fresh = λ n. 7 + n; fails = λ op id. false }

abbrev broken_at : ℕ → Ctx
broken_at now = record {
  now = now;
  fresh = λ n. 7 + n;
  fails = λ op id. op == "notification.CreateBatch";
}

abbrev setup : Setup
setup = record { uuids = letters; payload = λ n. text "{}"; has_pusher = false }

abbrev db : Db
db = record { classrooms = empty; members = put (put empty (5, 2) 0) (5, 1) 0 }

abbrev empty_box : Outbox
empty_box = record { inbox = empty; events = []; pushes = [] }

abbrev sprintf : String → String
sprintf name = name

abbrev json : ℕ → String → Option String
json device_id rule = some rule

abbrev offline : Input
offline = alert_input "Device offline" (sprintf "lamp") (json 3 "device_offline")

abbrev told : ℕ → ℕ → Notification
told i uid = record {
  id = i;
  user_id = uid;
  classroom_id = some 5;
  type = type_warning;
  title = "Device offline";
  message = "lamp";
  metadata = some "device_offline";
  read_at = none;
  created_at = 100;
}

abbrev both_told : List Notification
both_told = told 7 1 ∷ told 8 2 ∷ []

abbrev lamp : Key
lamp = ((5, 3), "device_offline")

abbrev requests : List (ℕ × Key)
requests = (0, lamp) ∷ (299, lamp) ∷ (300, lamp) ∷ []

clock : IsClock 0 requests
clock = (omega arith, (omega arith, (omega arith, tt)))

-- Twice in five minutes is once too often.
throttled : answers empty requests ≡ false ∷ true ∷ false ∷ []
unfolding throttle get put empty rows
throttled = refl

answers-expected_example : answers empty requests ≡ expected [] requests
answers-expected_example = answers-expected requests clock

abbrev idle : Engine
idle = record { alerts = empty; outbox = empty_box }

fresh_key : is_recent 100 (get idle.alerts lamp) ≡ false
unfolding get empty
fresh_key = refl

not_stored : (create_for_classroom setup (broken_at 100) db 5 offline empty_box).0 ≡ err internal
unfolding create_for_classroom create_batch prepare addressed to_notification members_of type_valid
    rows put empty sort_with
not_stored = refl

lost_alert_example :
    let first =
      on_device_state_change sprintf json setup (broken_at 100) db 5 3 "lamp" false idle in
    (first.outbox ≡ empty_box)
    × (on_device_state_change sprintf json setup (at 200) db 5 3 "lamp" false first ≡ first)
lost_alert_example =
    lost_alert sprintf json setup (broken_at 100) (at 200) db db 5 3 "lamp" idle internal fresh_key
      not_stored (omega arith) (omega arith)
