-- ===== src/Sensor/Repository.antt =====
-- reading.go, repository.go and postgres.go of backend/internal/sensor, over the table
-- `sensor_readings` (migrations), whose rows are kept in the order of their insertion. Raw data are
-- the text that json.Marshal makes of them, `none` where it fails; a value is a float64.
use smartclass.Prelude.{
  ℕ, ◌+◌, String, Bool, true, false, not, ◌&&◌, ◌||◌, Option, none, some, List, [], ◌∷◌, ◌++◌, ◌==◌,
  nat_eq, string_eq, if◌then◌else◌, leb, ltb, keep,
}
use smartclass.Prelude.Dict.{get}
use smartclass.Prelude.Sort.{sort_with, take}
use smartclass.Prelude.Int.{ℤ, pos, negsuc}
use smartclass.Platform.Errors.{Result, ok, err, internal, ◌>>=◌}
use smartclass.Platform.Exec.{Exec}
use smartclass.Platform.Context.{Ctx, query}
use smartclass.Device.Repository
use smartclass.Device.Repository.{Device}

-- Metric.Valid
unfoldable pub metric_valid : String → Bool
metric_valid m =
    m == "temperature"
    || m == "humidity"
    || m == "motion"
    || m == "air_quality"
    || m == "energy"
    || m == "door"

-- A zero time is 0.
pub record Reading (Value : Type 0) : Type 0 where
  pub id : ℕ
  pub device_id : ℕ
  pub metric : String
  pub value : Value
  pub unit : String
  pub recorded_at : ℕ
  pub raw : Option String

pub record Table (Value : Type 0) : Type 0 where
  pub next_id : ℕ  -- of the sequence
  pub entries : List (Reading Value)

abbrev given : Option ℕ → (ℕ → Bool) → Bool
given none p = true
given (some n) p = p n

-- `if limit <= 0 || limit > 10000 { limit = 500 }`
unfoldable pub clamp_limit : ℤ → ℕ
clamp_limit (pos n) = if n == 0 || ltb 10000 n then 500 else n
clamp_limit (negsuc n) = 500

abbrev in_classroom : ℕ → Option Device → Bool
in_classroom classroom_id none = false
in_classroom classroom_id (some d) = d.classroom_id == classroom_id

module _ {Value : Type 0} where
  abbrev pub dated : Ctx → Reading Value → Reading Value
  dated c r = record r { recorded_at = if r.recorded_at == 0 then c.now else r.recorded_at }

  -- The loop of Insert
  unfoldable pub prepare : Ctx → List (Reading Value) → Result (List (Reading Value))
  prepare c [] = ok []
  prepare c (r ∷ rs) = elim r.raw [
    | none ↦ err internal
    | some json ↦ do rest ← prepare c rs; ok (dated c r ∷ rest)
  ]

  unfoldable pub append_rows : List (Reading Value) → Table Value → Table Value
  append_rows [] t = t
  append_rows (r ∷ rs) t =
      append_rows rs (record {
        next_id = t.next_id + 1;
        entries = t.entries ++ record r { id = t.next_id } ∷ [];
      })

  unfoldable pub insert : Ctx → List (Reading Value) → Exec (Table Value) (Unit {0})
  insert c [] t = (ok tt, t)
  insert c (r ∷ rs) t = elim (prepare c (r ∷ rs)) [
    | err x ↦ (err x, t)
    | ok prepared ↦
        if c.fails "sensor.Insert" r.device_id
        then (err internal, t)
        else (ok tt, append_rows prepared t)
  ]

  abbrev pub newest_first : Reading Value → Reading Value → Bool
  newest_first a b = leb b.recorded_at a.recorded_at

  abbrev pub matches : ℕ → String → Option ℕ → Option ℕ → Reading Value → Bool
  matches device_id metric from to r =
      r.device_id == device_id
      && (metric == "" || r.metric == metric)
      && given from (λ t. leb t r.recorded_at)
      && given to (λ t. leb r.recorded_at t)

  -- List
  unfoldable pub list_readings :
      Ctx → Table Value → ℕ → String → Option ℕ → Option ℕ → ℤ → Result (List (Reading Value))
  list_readings c t device_id metric from to limit = query c "sensor.List" device_id (
      ok (
        take (clamp_limit limit)
          (sort_with newest_first (keep (matches device_id metric from to) t.entries))))

  -- JOIN devices … WHERE d.classroom_id = $1
  abbrev pub is_of : Repository.Table → ℕ → Reading Value → Bool
  is_of devices classroom_id r = in_classroom classroom_id (get devices r.device_id)

  abbrev pub same_sensor : Reading Value → Reading Value → Bool
  same_sensor a b = a.device_id == b.device_id && a.metric == b.metric

  -- DISTINCT ON (sr.device_id, sr.metric): the first of each
  unfoldable pub distinct : List (Reading Value) → List (Reading Value)
  distinct [] = []
  distinct (r ∷ rs) = r ∷ keep (λ s. not (same_sensor r s)) (distinct rs)

  -- LatestByClassroom; the order of its rows, by device and metric, is left out.
  unfoldable pub latest_by_classroom :
      Ctx → Repository.Table → Table Value → ℕ → Result (List (Reading Value))
  unfolding distinct
  latest_by_classroom c devices t classroom_id =
      query c "sensor.LatestByClassroom" classroom_id
        (ok (distinct (sort_with newest_first (keep (is_of devices classroom_id) t.entries))))
