-- ===== src/Sensor/Reads.antt =====
-- History and LatestForClassroom of service.go of backend/internal/sensor.
use smartclass.Prelude.{ℕ, String, false, not, ◌&&◌, Option, List, ◌==◌, string_eq}
use smartclass.Prelude.Int.{ℤ}
use smartclass.Platform.Errors.{Result, ok, invalid_metric, reject_if, ◌>>=◌, ◌>>◌}
use smartclass.Platform.Context.{Ctx}
use smartclass.User.{Principal}
use smartclass.Classroom.Repository.{Db}
use smartclass.Classroom.Service.{authorize}
use smartclass.Device.Repository as Devices
use smartclass.Device.Repository.{Device}
use smartclass.Device.Service.{find}
use smartclass.Sensor.Repository.{Reading, Table, metric_valid, list_readings, latest_by_classroom}

-- Get of the device service, as a read
unfoldable pub read_device : Ctx → Db → Devices.Table → Principal → ℕ → Result Device
read_device c db devices p id = do
  d ← find c devices id
  authorize c db p d.classroom_id false
  ok d

unfoldable pub history :
    {Value : Type 0}
    → Ctx
    → Db
    → Devices.Table
    → Principal
    → ℕ
    → String
    → Option ℕ
    → Option ℕ
    → ℤ
    → Table Value
    → Result (List (Reading Value))
history c db devices p device_id metric from to limit t = do
  d ← read_device c db devices p device_id
  reject_if (not (metric == "") && not (metric_valid metric)) invalid_metric
  list_readings c t d.id metric from to limit

unfoldable pub latest_for_classroom :
    {Value : Type 0}
    → Ctx
    → Db
    → Devices.Table
    → Principal
    → ℕ
    → Table Value
    → Result (List (Reading Value))
latest_for_classroom c db devices p classroom_id t = do
  authorize c db p classroom_id false
  latest_by_classroom c devices t classroom_id
