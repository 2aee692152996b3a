-- ===== src/Analytics/Examples.antt =====
-- A classroom with one lamp that was commanded twice and measured twice.
use smartclass.Prelude.{ℕ, ◌+◌, false, some, none, List, [], ◌∷◌, ◌≡◌, refl, leb, if◌then◌else◌}
use smartclass.Prelude.Dict.{empty, get, put}
use smartclass.Prelude.Sort.{sort_with}
use smartclass.Platform.Errors.{ok}
use smartclass.Classroom.Service.{authorize}
use smartclass.Device.Examples.{calm, school, teacher, lab}
use smartclass.Audit.Repository as Audit
use smartclass.Audit.Repository.{Row}
use smartclass.Sensor.Repository.{Reading}
use smartclass.Analytics.Groups.{groups}
use smartclass.Analytics.Repository
use smartclass.Analytics.Repository.{
  DeviceUsage, TimePoint, Aggregates, bucket_valid, is_command, is_measured,
}
use smartclass.Analytics.Service.{device_usage, sensor_series}
use smartclass.Analytics.Usage.{IsUsage, device_usage_ok}
use smartclass.Analytics.Series.{IsBucket, IsSeries, sensor_series_ok}

abbrev command_at : ℕ → ℕ → Row
command_at id time = record {
  id = id;
  entry = record {
    actor_id = some 10;
    entity_type = "device";
    entity_id = some 4;
    action = "command";
    metadata = none;
    created_at = time;
  };
}

abbrev log : Audit.Table
log = record { next_id = 4; entries = command_at 1 20 ∷ command_at 2 30 ∷ command_at 3 70 ∷ [] }

abbrev usage : List DeviceUsage
usage = record { device_id = 4; command_count = 2 } ∷ []

usage_shown : device_usage calm school lab.devices log teacher 1 10 50 ≡ ok usage
unfolding device_usage Repository.device_usage authorize get put empty sort_with groups
usage_shown = refl

device_usage_ok_example :
    (authorize calm school teacher 1 false ≡ ok tt)
    × IsUsage calm lab.devices 1 10 50 log.entries usage
device_usage_ok_example =
    device_usage_ok calm school lab.devices log teacher 1 10 50 usage usage_shown

-- Whole numbers of degrees, in buckets of twenty seconds.
abbrev total : List ℕ → ℕ
total [] = 0
total (n ∷ ns) = n + total ns

abbrev first : List ℕ → ℕ
first [] = 0
first (n ∷ ns) = n

abbrev degrees : Aggregates ℕ
degrees = record {
  avg = first;
  min = first;
  max = first;
  sum = total;
  date_trunc = λ unit t. if leb t 20 then 0 else 20;
}

abbrev reading : ℕ → ℕ → ℕ → Reading ℕ
reading id value time = record {
  id = id;
  device_id = 4;
  metric = "temperature";
  value = value;
  unit = "C";
  recorded_at = time;
  raw = none;
}

abbrev readings : List (Reading ℕ)
readings = reading 1 21 30 ∷ reading 2 22 15 ∷ reading 3 23 70 ∷ []

abbrev point : ℕ → ℕ → TimePoint ℕ
point bucket value = record { bucket = bucket; avg = value; min = value; max = value; count = 1 }

series_shown :
    sensor_series degrees calm school lab.devices readings teacher 1 "temperature" "hour" 10 50
    ≡ ok (point 0 22 ∷ point 20 21 ∷ [])
unfolding sensor_series Repository.sensor_series bucket_valid authorize get put empty sort_with
    groups
series_shown = refl

sensor_series_ok_example :
    (authorize calm school teacher 1 false ≡ ok tt)
    × IsBucket "hour"
    × IsSeries degrees calm lab.devices 1 "temperature" "hour" 10 50 readings
        (point 0 22 ∷ point 20 21 ∷ [])
sensor_series_ok_example =
    sensor_series_ok degrees calm school lab.devices readings teacher 1 "temperature" "hour" 10 50
      (point 0 22 ∷ point 20 21 ∷ []) series_shown
