-- ===== src/Sensor/Examples.antt =====
-- A teacher reports two temperatures of a lamp; a value is a number of degrees in these tests.
use smartclass.Prelude.{
  ℕ, ◌+◌, String, false, some, List, [], ◌∷◌, ◌++◌, map, ◌≡◌, refl, nat_eq, string_eq, pair_eq, ltb,
  All, length,
}
use smartclass.Prelude.Dict.{empty, get, put}
use smartclass.Prelude.Sort.{sort_with}
use smartclass.Prelude.Text.{text}
use smartclass.Platform.Errors.{ok, err, invalid_metric}
use smartclass.Platform.Examples.{letters}
use smartclass.Classroom.Service.{authorize}
use smartclass.Device.Repository.{get_by_id}
use smartclass.Device.Service.{find}
use smartclass.Device.Examples.{calm, school, teacher, lamp}
use smartclass.Notification.Trigger.{Readings}
use smartclass.Sensor.Repository.{
  Reading, Table, metric_valid, prepare, insert, latest_by_classroom,
}
use smartclass.Sensor.Reads.{read_device}
use smartclass.Sensor.Service.{IngestItem, Site, Sources, reading_of, ingest_items, ingest}
use smartclass.Sensor.Ingestion.{numbered, IsReadable, ingest_ok}
use smartclass.Sensor.Latest.{IsLatest, latest_by_classroom_ok}

abbrev degrees : Readings
degrees = record {
  Value = ℕ;
  exceeds = λ a b. ltb b a;
  temperature_high = 30;
  temperature_low = 14;
  humidity_high = 80;
  message = λ rule v. rule;
  json = λ id metric v rule. some rule;
}

abbrev sources : Sources
sources = record {
  rules = degrees;
  setup = record { uuids = letters; payload = λ n. text "{}"; has_pusher = false };
  payload = λ id metric v unit t. text "{}";
  devices = put empty 3 (record lamp { id = 3; classroom_id = 1 });
}

abbrev quiet : Site ℕ
quiet = record {
  readings = record { next_id = 1; entries = [] };
  events = [];
  engine = record { alerts = empty; outbox = record { inbox = empty; events = []; pushes = [] } };
}

abbrev item : String → ℕ → IngestItem ℕ
item metric value = record {
  device_id = 3;
  metric = metric;
  value = value;
  unit = "C";
  recorded_at = some (50 + value);
  raw = some "{}";
}

abbrev two_items : List (IngestItem ℕ)
two_items = item "temperature" 20 ∷ item "temperature" 21 ∷ []

two_stored : (ingest sources calm school teacher two_items quiet).0 ≡ ok 2
unfolding ingest ingest_items metric_valid read_device find get_by_id get put authorize insert
    prepare
two_stored = refl

ingest_ok_example :
    (2 ≡ length two_items)
    × All (IsReadable sources calm school teacher) two_items
    × ((ingest sources calm school teacher two_items quiet).1.readings.entries
        ≡ [] ++ numbered calm 1 (map (reading_of sources calm) two_items))
ingest_ok_example = ingest_ok sources calm school teacher two_items quiet 2 two_stored

one_unknown :
    (ingest sources calm school teacher (item "temperature" 20 ∷ item "noise" 3 ∷ []) quiet).0
    ≡ err invalid_metric
unfolding ingest ingest_items metric_valid read_device find get_by_id get put authorize
one_unknown = refl

abbrev two_rows : Table ℕ
two_rows = record {
  next_id = 3;
  entries = numbered calm 1 (map (reading_of sources calm) two_items);
}

abbrev newest : List (Reading ℕ)
newest = record (reading_of sources calm (item "temperature" 21)) { id = 2 } ∷ []

only_newest : latest_by_classroom calm sources.devices two_rows 1 ≡ ok newest
unfolding latest_by_classroom sort_with get put
only_newest = refl

latest_by_classroom_ok_example : IsLatest sources.devices two_rows 1 newest
latest_by_classroom_ok_example =
    latest_by_classroom_ok calm sources.devices two_rows 1 newest only_newest
