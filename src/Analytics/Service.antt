-- ===== src/Analytics/Service.antt =====
-- service.go of backend/internal/analytics. A zero time is 0.
use smartclass.Prelude.{ℕ, ◌*◌, ◌-◌, String, false, not, List, ◌==◌, nat_eq, if◌then◌else◌}
use smartclass.Platform.Errors.{Result, invalid_bucket, reject_if, ◌>>◌}
use smartclass.Platform.Context.{Ctx}
use smartclass.User.{Principal}
use smartclass.Classroom.Repository.{Db}
use smartclass.Classroom.Service.{authorize}
use smartclass.Device.Repository as Devices
use smartclass.Audit.Repository as Audit
use smartclass.Sensor.Repository.{Reading}
use smartclass.Analytics.Repository
use smartclass.Analytics.Repository.{DeviceUsage, TimePoint, Aggregates, bucket_valid}

abbrev hour : ℕ
hour = 3600

-- `if from.IsZero() { from = time.Now().UTC().Add(-days * 24 * time.Hour) }`
abbrev pub from_or : Ctx → ℕ → ℕ → ℕ
from_or c days from = if from == 0 then c.now - days * 24 * hour else from

-- `if to.IsZero() { to = time.Now().UTC() }`
abbrev pub to_or : Ctx → ℕ → ℕ
to_or c to = if to == 0 then c.now else to

unfoldable pub device_usage :
    Ctx → Db → Devices.Table → Audit.Table → Principal → ℕ → ℕ → ℕ → Result (List DeviceUsage)
device_usage c db devices log p classroom_id from to = do
  authorize c db p classroom_id false
  Repository.device_usage c devices log classroom_id (from_or c 7 from) (to_or c to)

module _ {Value : Type 0} (agg : Aggregates Value) where
  unfoldable pub sensor_series :
      Ctx
      → Db
      → Devices.Table
      → List (Reading Value)
      → Principal
      → ℕ
      → String
      → String
      → ℕ
      → ℕ
      → Result (List (TimePoint Value))
  sensor_series c db devices readings p classroom_id metric bucket from to = do
    authorize c db p classroom_id false
    reject_if (not (bucket_valid bucket)) invalid_bucket
    Repository.sensor_series agg c devices readings classroom_id metric bucket (from_or c 7 from)
        (to_or c to)

  unfoldable pub energy_total :
      Ctx → Db → Devices.Table → List (Reading Value) → Principal → ℕ → ℕ → ℕ → Result Value
  energy_total c db devices readings p classroom_id from to = do
    authorize c db p classroom_id false
    Repository.energy_total agg c devices readings classroom_id (from_or c 30 from) (to_or c to)
