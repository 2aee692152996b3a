-- ===== src/Notification/Trigger.antt =====
-- trigger.go of backend/internal/notification: the rule engine. Readings are floating-point numbers,
-- and their comparison and printing are Go's.
use smartclass.Prelude.{
  ℕ, ◌-◌, String, Bool, true, false, Option, none, some, ◌==◌, nat_eq, string_eq, pair_eq,
  if◌then◌else◌, leb, ltb, length,
}
use smartclass.Prelude.Dict.{Dict, get, put, remove_where, rows}
use smartclass.Platform.Context.{Ctx}
use smartclass.Classroom.Repository.{Db}
use smartclass.Notification.Repository.{type_warning}
use smartclass.Notification.Service.{Input, Outbox, Setup, create_for_classroom}

-- `classroomID:deviceID:rule`; no uuid contains a ':'.
abbrev pub Key : Type 0
Key = (ℕ × ℕ) × String

abbrev pub Alerts : Type 0
Alerts = Dict Key ℕ

-- five minutes
abbrev pub cooldown : ℕ
cooldown = 300

abbrev pub high_water : ℕ
high_water = 4096

abbrev pub is_recent : ℕ → Option ℕ → Bool
is_recent now none = false
is_recent now (some last) = ltb (now - last) cooldown

abbrev pub is_expired : ℕ → Key → ℕ → Bool
is_expired now k t = leb cooldown (now - t)

-- throttle: whether the alert is suppressed. The clock that it reads does not run back.
unfoldable pub throttle : ℕ → Key → Alerts → Bool × Alerts
throttle now key alerts =
    if is_recent now (get alerts key)
    then (true, alerts)
    else let marked = put alerts key now in
      (
        false,
        if ltb high_water (length (rows marked))
            then remove_where (is_expired now) marked
            else marked,
      )

pub record Engine : Type 0 where
  pub alerts : Alerts
  pub outbox : Outbox

abbrev pub raise_unless : Bool × Alerts → Setup → Ctx → Db → ℕ → Input → Outbox → Engine
raise_unless (true, alerts) s c db classroom_id input o = record { alerts = alerts; outbox = o }
raise_unless (false, alerts) s c db classroom_id input o = record {
  alerts = alerts;
  outbox = (create_for_classroom s c db classroom_id input o).1;
}

-- An alert of a rule, unless it is throttled; that CreateForClassroom fails is only logged.
unfoldable pub alert : Setup → Ctx → Db → ℕ → ℕ → String → Input → Engine → Engine
alert s c db classroom_id device_id rule input e =
    raise_unless (throttle c.now ((classroom_id, device_id), rule) e.alerts) s c db classroom_id
      input e.outbox

abbrev pub alert_input : String → String → Option String → Input
alert_input title message metadata = record {
  user_id = 0;
  classroom_id = none;
  type = type_warning;
  title = title;
  message = message;
  metadata = metadata;
}

-- fmt.Sprintf of the name, and json.Marshal of the device and the rule
unfoldable pub on_device_state_change :
    (String → String)
    → (ℕ → String → Option String)
    → Setup
    → Ctx
    → Db
    → ℕ
    → ℕ
    → String
    → Bool
    → Engine
    → Engine
on_device_state_change sprintf json s c db classroom_id device_id name online e =
    if online
    then e
    else alert s c db classroom_id device_id "device_offline"
        (alert_input "Device offline" (sprintf name) (json device_id "device_offline")) e

-- What the engine uses of floating-point numbers, and its thresholds
pub record Readings : Type 1 where
  pub Value : Type 0
  pub exceeds : Value → Value → Bool
  pub temperature_high : Value
  pub temperature_low : Value
  pub humidity_high : Value
  pub message : String → Value → String
  pub json : ℕ → String → Value → String → Option String

-- The rule that a reading breaks
unfoldable pub broken_rule : (r : Readings) → String → r.Value → Option String
broken_rule r metric value =
    if metric == "temperature"
    then if r.exceeds value r.temperature_high
      then some "temperature_high"
      else if r.exceeds r.temperature_low value
      then some "temperature_low"
      else none
    else if metric == "humidity"
    then if r.exceeds value r.humidity_high then some "humidity_high" else none
    else none

unfoldable pub on_sensor_reading :
    (r : Readings) → Setup → Ctx → Db → ℕ → ℕ → String → r.Value → Engine → Engine
on_sensor_reading r s c db classroom_id device_id metric value e =
    elim (broken_rule r metric value) [
      | none ↦ e
      | some rule ↦
          alert s c db classroom_id device_id rule
            (alert_input "Environment alert" (r.message rule value)
              (r.json device_id metric value rule))
            e
    ]
