-- ===== src/Sensor/Service.antt =====
-- Ingest of service.go of backend/internal/sensor. A request reads the devices and their classrooms; it changes
-- the readings, the events that it hands to the broker, oldest first, and what the rule engine keeps.
use smartclass.Prelude.{
  ℕ, String, not, Option, none, some, List, [], ◌∷◌, ◌++◌, string_eq, nat_eq, length,
}
use smartclass.Prelude.Text.{Text, text}
use smartclass.Platform.Errors.{ok, invalid_metric, reject_if}
use smartclass.Platform.Exec.{Exec, lift, pure, ◌>>=◌}
use smartclass.Platform.Context.{Ctx}
use smartclass.User.{Principal}
use smartclass.Classroom.Repository.{Db}
use smartclass.Device.Repository as Devices
use smartclass.Device.Repository.{Device}
use smartclass.Realtime.Events.{Event, classroom_topic}
use smartclass.Notification.Service.{Setup}
use smartclass.Notification.Trigger.{Engine, Readings, on_sensor_reading}
use smartclass.Sensor.Reads.{read_device}
use smartclass.Sensor.Repository
use smartclass.Sensor.Repository.{Reading, Table, metric_valid}

pub record IngestItem (Value : Type 0) : Type 0 where
  pub device_id : ℕ
  pub metric : String
  pub value : Value
  pub unit : String
  pub recorded_at : Option ℕ
  pub raw : Option String

pub record Site (Value : Type 0) : Type 0 where
  pub readings : Table Value
  pub events : List Event
  pub engine : Engine

-- What the service was built with, and the JSON of a reading's event.
pub record Sources : Type 1 where
  pub rules : Readings
  pub setup : Setup
  pub payload : ℕ → String → rules.Value → String → ℕ → Text
  pub devices : Devices.Table

abbrev or_now : Ctx → Option ℕ → ℕ
or_now c none = c.now
or_now c (some t) = t

module _ (s : Sources) where
  abbrev pub reading_of : Ctx → IngestItem s.rules.Value → Reading s.rules.Value
  reading_of c it = record {
    id = 0;
    device_id = it.device_id;
    metric = it.metric;
    value = it.value;
    unit = it.unit;
    recorded_at = or_now c it.recorded_at;
    raw = it.raw;
  }

  -- publish, then OnSensorReading
  abbrev pub tell :
      Ctx → Db → Device → IngestItem s.rules.Value → Exec (Site s.rules.Value) (Unit {0})
  tell c db d it site = (
    ok tt,
    record site {
      events =
          site.events
          ++ record {
            version = 1;
            topic = classroom_topic s.setup.uuids d.classroom_id (text "sensors");
            type = "sensor.reading";
            payload = s.payload it.device_id it.metric it.value it.unit (or_now c it.recorded_at);
          }
            ∷ [];
      engine =
          on_sensor_reading s.rules s.setup c db d.classroom_id it.device_id it.metric it.value
            site.engine;
    },
  )

  -- The loop of Ingest
  unfoldable pub ingest_items :
      Ctx
      → Db
      → Principal
      → List (IngestItem s.rules.Value)
      → Exec (Site s.rules.Value) (List (Reading s.rules.Value))
  ingest_items c db p [] = pure []
  ingest_items c db p (it ∷ its) =
      lift (reject_if (not (metric_valid it.metric)) invalid_metric) >>= λ _.
      lift (read_device c db s.devices p it.device_id) >>= λ d.
      tell c db d it >>= λ _. ingest_items c db p its >>= λ rs. pure (reading_of c it ∷ rs)

  abbrev on_readings : {A : Type 0} → Exec (Table s.rules.Value) A → Exec (Site s.rules.Value) A
  on_readings m site = ((m site.readings).0, record site { readings = (m site.readings).1 })

  unfoldable pub ingest :
      Ctx → Db → Principal → List (IngestItem s.rules.Value) → Exec (Site s.rules.Value) ℕ
  unfolding ingest_items
  ingest c db p [] = pure 0
  ingest c db p (it ∷ its) = ingest_items c db p (it ∷ its) >>= λ rs.
      on_readings (Repository.insert c rs) >>= λ _. pure (length rs)
