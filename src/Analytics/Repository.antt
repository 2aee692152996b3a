-- ===== src/Analytics/Repository.antt =====
-- repository.go and postgres.go of backend/internal/analytics, over the tables of devices, readings and
-- the audit log. The aggregates of SQL on float64 and `date_trunc` are parameters.
use smartclass.Prelude.{
  ℕ, String, Bool, false, ◌&&◌, ◌||◌, Option, none, some, List, ◌==◌, nat_eq, string_eq,
  if◌then◌else◌, leb, keep, map, length, not,
}
use smartclass.Prelude.Dict.{get}
use smartclass.Prelude.Sort.{sort_with}
use smartclass.Platform.Errors.{Result, ok, err, internal}
use smartclass.Platform.Context.{Ctx, query}
use smartclass.Device.Repository as Devices
use smartclass.Device.Repository.{Device}
use smartclass.Audit.Repository as Audit
use smartclass.Audit.Repository.{Row}
use smartclass.Sensor.Repository.{Reading}
use smartclass.Analytics.Groups.{groups}

-- Bucket.Valid
unfoldable pub bucket_valid : String → Bool
bucket_valid b = b == "hour" || b == "day" || b == "week" || b == "month"

pub record DeviceUsage : Type 0 where
  pub device_id : ℕ
  pub command_count : ℕ

pub record TimePoint (Value : Type 0) : Type 0 where
  pub bucket : ℕ
  pub avg : Value
  pub min : Value
  pub max : Value
  pub count : ℕ

-- AVG, MIN and MAX of the values of a group, SUM (0 of none), and date_trunc of a unit
pub record Aggregates (Value : Type 0) : Type 0 where
  pub avg : List Value → Value
  pub min : List Value → Value
  pub max : List Value → Value
  pub sum : List Value → Value
  pub date_trunc : String → ℕ → ℕ

-- x BETWEEN a AND b
abbrev pub between : ℕ → ℕ → ℕ → Bool
between from to x = leb from x && leb x to

abbrev in_classroom : ℕ → Option Device → Bool
in_classroom classroom_id none = false
in_classroom classroom_id (some d) = d.classroom_id == classroom_id

abbrev entity_in : Devices.Table → ℕ → Option ℕ → Bool
entity_in devices classroom_id none = false
entity_in devices classroom_id (some id) = in_classroom classroom_id (get devices id)

abbrev entity_of : Option ℕ → ℕ
entity_of none = 0
entity_of (some id) = id

-- The device of a row; a row that the query joins has one.
abbrev pub device_of : Row → ℕ
device_of r = entity_of r.entry.entity_id

-- The WHERE of DeviceUsage
abbrev pub is_command : Devices.Table → ℕ → ℕ → ℕ → Row → Bool
is_command devices classroom_id from to r =
    r.entry.entity_type == "device"
    && r.entry.action == "command"
    && entity_in devices classroom_id r.entry.entity_id
    && between from to r.entry.created_at

abbrev pub usage_of : ℕ × List Row → DeviceUsage
usage_of (id, rows) = record { device_id = id; command_count = length rows }

abbrev pub busiest_first : DeviceUsage → DeviceUsage → Bool
busiest_first a b = leb b.command_count a.command_count

unfoldable pub device_usage :
    Ctx → Devices.Table → Audit.Table → ℕ → ℕ → ℕ → Result (List DeviceUsage)
device_usage c devices log classroom_id from to = query c "analytics.DeviceUsage" classroom_id (
    ok (
      sort_with busiest_first (
        map usage_of
          (groups device_of (keep (is_command devices classroom_id from to) log.entries)))))

module _ {Value : Type 0} (agg : Aggregates Value) where
  -- The WHERE of SensorSeries
  abbrev pub is_measured : Devices.Table → ℕ → String → ℕ → ℕ → Reading Value → Bool
  is_measured devices classroom_id metric from to r =
      in_classroom classroom_id (get devices r.device_id)
      && r.metric == metric
      && between from to r.recorded_at

  abbrev pub point_of : ℕ × List (Reading Value) → TimePoint Value
  point_of (bucket, rs) =
      let values = map (λ (r : Reading Value). r.value) rs in
      record {
        bucket = bucket;
        avg = agg.avg values;
        min = agg.min values;
        max = agg.max values;
        count = length rs;
      }

  abbrev pub earlier_first : TimePoint Value → TimePoint Value → Bool
  earlier_first a b = leb a.bucket b.bucket

  unfoldable pub sensor_series :
      Ctx
      → Devices.Table
      → List (Reading Value)
      → ℕ
      → String
      → String
      → ℕ
      → ℕ
      → Result (List (TimePoint Value))
  unfolding bucket_valid
  sensor_series c devices readings classroom_id metric bucket from to =
      if not (bucket_valid bucket)
      then err internal
      else query c "analytics.SensorSeries" classroom_id (
          ok (
            sort_with earlier_first (
              map point_of (
                groups (λ r. agg.date_trunc bucket r.recorded_at)
                  (keep (is_measured devices classroom_id metric from to) readings)))))

  unfoldable pub energy_total :
      Ctx → Devices.Table → List (Reading Value) → ℕ → ℕ → ℕ → Result Value
  energy_total c devices readings classroom_id from to =
      query c "analytics.EnergyTotal" classroom_id (
        ok (
          agg.sum (
            map (λ (r : Reading Value). r.value)
              (keep (is_measured devices classroom_id "energy" from to) readings))))
