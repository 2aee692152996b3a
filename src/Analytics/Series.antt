-- ===== src/Analytics/Series.antt =====
-- What SensorSeries of backend/internal/analytics answers.
use smartclass.Prelude.{
  ℕ, String, true, false, ◌&&◌, List, ◌≡◌, ◌↔◌, ◌⊎◌, inl, inr, refl, length, subst, ◌==◌, nat_eq,
  string_eq, keep, map, leb, arith, Option-cases, Bool-cases,
}
use smartclass.Prelude.Dict.{get}
use smartclass.Prelude.Sort.{sort_with}
use smartclass.Platform.Errors.{ok, Result-cases}
use smartclass.Platform.Context.{Ctx}
use smartclass.User.{Principal}
use smartclass.Classroom.Repository.{Db}
use smartclass.Classroom.Service.{authorize}
use smartclass.Device.Repository as Devices
use smartclass.Sensor.Repository.{Reading}
use smartclass.Analytics.Groups.{groups}
use smartclass.Analytics.Summary.{IsSummary, sorted-IsSummary}
use smartclass.Analytics.Report.{IsReport, summary-IsReport}
use smartclass.Analytics.Repository
use smartclass.Analytics.Repository.{
  TimePoint, Aggregates, bucket_valid, is_measured, point_of, earlier_first,
}
use smartclass.Analytics.Service.{from_or, to_or, sensor_series}
use smartclass.Analytics.Usage.{IsAsked, between_iff, IsIn}

-- The names of the buckets
abbrev pub IsBucket : String → Type 0
IsBucket b = (b ≡ "hour") ⊎ (b ≡ "day") ⊎ (b ≡ "week") ⊎ (b ≡ "month")

bucket_valid-IsBucket : (b : String) → bucket_valid b ≡ true → IsBucket b
unfolding bucket_valid
bucket_valid-IsBucket b h = ground (
  arith,
  h,
  string_eq.beq_iff b "hour",
  string_eq.beq_iff b "day",
  string_eq.beq_iff b "week",
  string_eq.beq_iff b "month",
)

module _ {Value : Type 0} (agg : Aggregates Value) where
  -- A reading of the metric by a device of the classroom in the bucket `b`
  abbrev pub IsReadingIn :
      Ctx → Devices.Table → ℕ → String → String → ℕ → ℕ → ℕ → Reading Value → Type 0
  IsReadingIn c devices classroom_id metric bucket from to b r =
      IsIn devices classroom_id r.device_id
      × (r.metric ≡ metric)
      × (agg.date_trunc bucket r.recorded_at ≡ b)
      × IsAsked c from to r.recorded_at

  abbrev pub values_of : List (Reading Value) → List Value
  values_of rs = map (λ (r : Reading Value). r.value) rs

  abbrev pub IsSeries :
      Ctx
      → Devices.Table
      → ℕ
      → String
      → String
      → ℕ
      → ℕ
      → List (Reading Value)
      → List (TimePoint Value)
      → Type 0
  IsSeries c devices classroom_id metric bucket from to =
      IsReport (IsReadingIn c devices classroom_id metric bucket from to)
        (λ (g : ℕ × List (Reading Value)). record {
          bucket = g.0;
          avg = agg.avg (values_of g.1);
          min = agg.min (values_of g.1);
          max = agg.max (values_of g.1);
          count = length g.1;
        })
        (λ a b. leb a.bucket b.bucket) (λ p. p.count)

  reading_iff :
      (c : Ctx) (devices : Devices.Table) (classroom_id : ℕ) (metric bucket : String) (from to : ℕ)
      (r : Reading Value) (b : ℕ)
      → (is_measured agg devices classroom_id metric (from_or c 7 from) (to_or c to) r
            && agg.date_trunc bucket r.recorded_at == b
          ≡ true)
        ↔ IsReadingIn c devices classroom_id metric bucket from to b r
  reading_iff c devices classroom_id metric bucket from to r b = (
    λ h. elim (Option-cases (get devices r.device_id)) [
      | inl missing ↦ absurd (ground (arith, missing, h))
      | inr (dev, found) ↦ (
        (dev, found, ground (arith, found, h)),
        ground (arith, found, h, string_eq.beq_iff r.metric metric),
        ground (arith, found, h),
        (between_iff c from to r.recorded_at).0 (ground (arith, found, h)),
      )
    ],
    λ ((dev, found, own), measured, here, asked).
        let in_time = (between_iff c from to r.recorded_at).1 asked in
        ground (arith, found, own, measured, here, in_time, string_eq.beq_iff r.metric metric),
  )

  -- A successful SensorSeries was asked by one who may read the classroom, for one of the four buckets.
  -- It shows exactly the buckets in which devices of the classroom measured the metric in the period
  -- (the week up to now, where none is given), with the aggregates of all these readings, the earliest
  -- first, and the counts add up to the readings.
  pub sensor_series_ok :
      (c : Ctx) (db : Db) (devices : Devices.Table) (readings : List (Reading Value))
      (p : Principal) (classroom_id : ℕ) (metric bucket : String) (from to : ℕ)
      (list : List (TimePoint Value))
      → sensor_series agg c db devices readings p classroom_id metric bucket from to ≡ ok list
      → (authorize c db p classroom_id false ≡ ok tt)
        × IsBucket bucket
        × IsSeries c devices classroom_id metric bucket from to readings list
  unfolding sensor_series Repository.sensor_series
  sensor_series_ok c db devices readings p classroom_id metric bucket from to list h =
      elim (Result-cases (authorize c db p classroom_id false)) [
        | inr (e, refused) ↦ absurd (ground (arith, refused))
        | inl (u, allowed) ↦ elim (Bool-cases (bucket_valid bucket)) [
          | inr bad ↦ absurd (ground (arith, allowed, bad))
          | inl good ↦
              let asked =
                is_measured agg devices classroom_id metric (from_or c 7 from) (to_or c to) in
              let rows = keep asked readings in
              let key = λ (r : Reading Value). agg.date_trunc bucket r.recorded_at in
              let shown : sort_with (earlier_first agg) (map (point_of agg) (groups key rows))
                  ≡ list =
                ground (arith, allowed, good, h) in
              let summary =
                sorted-IsSummary key (point_of agg) (earlier_first agg) (λ p. p.count)
                  (λ a b h. ground arith) (λ k rows. refl) rows in
              (
                allowed,
                bucket_valid-IsBucket bucket good,
                summary-IsReport (IsReadingIn c devices classroom_id metric bucket from to)
                    (point_of agg) (earlier_first agg) (λ p. p.count) key asked
                    (reading_iff c devices classroom_id metric bucket from to) readings list
                    (subst (IsSummary key (point_of agg) (earlier_first agg) (λ p. p.count) rows)
                      shown summary),
              )
        ]
      ]
