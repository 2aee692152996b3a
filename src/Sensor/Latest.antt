-- ===== src/Sensor/Latest.antt =====
-- What LatestByClassroom of backend/internal/sensor/postgres.go shows of each sensor.
use smartclass.Prelude.{
  ℕ, ◌≤◌, Bool, true, false, not, List, [], ◌∷◌, ◌≡◌, inl, inr, refl, sym, subst, nat_eq, string_eq,
  keep, Has, Has-keep, All, All-Has, Bool-cases, arith,
}
use smartclass.Prelude.Sort.{sort_with, Has-sort_with, IsSortedWith, sort_with-IsSortedWith}
use smartclass.Platform.Errors.{ok}
use smartclass.Platform.Context.{Ctx}
use smartclass.Device.Repository as Devices
use smartclass.Sensor.Repository.{
  Reading, Table, newest_first, is_of, same_sensor, distinct, latest_by_classroom,
}

module _ {Value : Type 0} where
  sorted_head-All :
      (r : Reading Value) (rs : List (Reading Value))
      → IsSortedWith newest_first (r ∷ rs)
      → All (λ (x : Reading Value). x.recorded_at ≤ r.recorded_at) rs
  sorted_head-All r [] s = tt
  sorted_head-All r (x ∷ xs) s =
      let here : x.recorded_at ≤ r.recorded_at = ground (arith, s.0) in
      (here, lower xs (sorted_head-All x xs s.1))
    where
      lower :
          (ys : List (Reading Value))
          → All (λ (y : Reading Value). y.recorded_at ≤ x.recorded_at) ys
          → All (λ (y : Reading Value). y.recorded_at ≤ r.recorded_at) ys
      lower [] a = tt
      lower (y ∷ ys) a = (ground (arith, s.0, a.0), lower ys a.1)

  sorted_tail :
      (r : Reading Value) (rs : List (Reading Value))
      → IsSortedWith newest_first (r ∷ rs)
      → IsSortedWith newest_first rs
  sorted_tail r [] s = tt
  sorted_tail r (x ∷ xs) s = s.1

  Has-distinct : (x : Reading Value) (rs : List (Reading Value)) → Has x (distinct rs) → Has x rs
  unfolding distinct
  Has-distinct x [] h = h
  Has-distinct x (r ∷ rs) (inl same) = inl same
  Has-distinct x (r ∷ rs) (inr h) =
      inr (Has-distinct x rs ((Has-keep (λ y. not (same_sensor r y)) x (distinct rs)).0 h).0)

  -- A reading that dominates another: of the same sensor, and not older.
  abbrev pub IsLater : Reading Value → Reading Value → Type 0
  IsLater y x = (same_sensor y x ≡ true) × (x.recorded_at ≤ y.recorded_at)

  same_sensor_refl : (x : Reading Value) → same_sensor x x ≡ true
  same_sensor_refl x =
      ground (arith, string_eq.beq_iff x.metric x.metric, nat_eq.beq_iff x.device_id x.device_id)

  same_sensor_trans :
      (x y z : Reading Value)
      → same_sensor x y ≡ true
      → same_sensor y z ≡ true
      → same_sensor x z ≡ true
  same_sensor_trans x y z h k =
      let m = (string_eq.beq_iff x.metric y.metric).0 (ground arith) in ground (arith, m)

  distinct-IsLater :
      (rs : List (Reading Value))
      → IsSortedWith newest_first rs
      → (x : Reading Value) → Has x rs
      → (y : Reading Value) × Has y (distinct rs) × IsLater y x
  unfolding distinct
  distinct-IsLater [] s x h = elim h [ ]
  distinct-IsLater (r ∷ rs) s x (inl same) =
      (r, inl refl, subst (IsLater r) (sym same) (same_sensor_refl r, omega arith))
  distinct-IsLater (r ∷ rs) s x (inr h) =
      let (y, has, later) = distinct-IsLater rs (sorted_tail r rs s) x h in
      elim (Bool-cases (same_sensor r y)) [
        | inr other ↦ (
          y,
          inr (
              (Has-keep (λ z. not (same_sensor r z)) y (distinct rs)).1
                (has, ground (arith, other))),
          later,
        )
        | inl own ↦
            let old =
              All-Has (λ (z : Reading Value). z.recorded_at ≤ r.recorded_at) rs
                (sorted_head-All r rs s) x h in
            (r, inl refl, (same_sensor_trans r y x own later.0, old))
      ]

  -- No sensor is shown twice.
  abbrev pub IsApart : List (Reading Value) → Type 0
  IsApart [] = Unit
  IsApart (r ∷ rs) = All (λ (x : Reading Value). same_sensor r x ≡ false) rs × IsApart rs

  keep-All :
      (q : Reading Value → Type 0) (p : Reading Value → Bool) (rs : List (Reading Value))
      → All q rs
      → All q (keep p rs)
  keep-All q p [] a = tt
  keep-All q p (r ∷ rs) a = elim (Bool-cases (p r)) [
    | inl good ↦ rw good (a.0, keep-All q p rs a.1)
    | inr skip ↦ rw skip (keep-All q p rs a.1)
  ]

  keep-passes :
      (p : Reading Value → Bool) (rs : List (Reading Value)) → All (λ r. p r ≡ true) (keep p rs)
  keep-passes p [] = tt
  keep-passes p (r ∷ rs) = elim (Bool-cases (p r)) [
    | inl good ↦ rw good (good, keep-passes p rs)
    | inr skip ↦ rw skip (keep-passes p rs)
  ]

  keep-IsApart :
      (p : Reading Value → Bool) (rs : List (Reading Value)) → IsApart rs → IsApart (keep p rs)
  keep-IsApart p [] a = tt
  keep-IsApart p (r ∷ rs) a = elim (Bool-cases (p r)) [
    | inl good ↦ rw good (keep-All (λ x. same_sensor r x ≡ false) p rs a.0, keep-IsApart p rs a.1)
    | inr skip ↦ rw skip (keep-IsApart p rs a.1)
  ]

  weaken :
      (p q : Reading Value → Bool) (rs : List (Reading Value))
      → ((r : Reading Value) → p r ≡ true → q r ≡ false)
      → All (λ r. p r ≡ true) rs
      → All (λ r. q r ≡ false) rs
  weaken p q [] h a = tt
  weaken p q (r ∷ rs) h a = (h r a.0, weaken p q rs h a.1)

  distinct-IsApart : (rs : List (Reading Value)) → IsApart (distinct rs)
  unfolding distinct
  distinct-IsApart [] = tt
  distinct-IsApart (r ∷ rs) = (
    weaken (λ x. not (same_sensor r x)) (same_sensor r) _ (λ x h. ground arith)
        (keep-passes (λ x. not (same_sensor r x)) (distinct rs)),
    keep-IsApart (λ x. not (same_sensor r x)) (distinct rs) (distinct-IsApart rs),
  )

  newest_first_total : (x y : Reading Value) → newest_first x y ≡ false → newest_first y x ≡ true
  newest_first_total x y h = ground arith

  -- A list that shows stored readings of devices of the classroom, no sensor (a metric of a device)
  -- twice, and for every stored reading of such a device one of the same sensor that is not older.
  unfoldable pub IsLatest : Devices.Table → Table Value → ℕ → List (Reading Value) → Type 0
  IsLatest devices t classroom_id l =
      ((x : Reading Value) → Has x l → Has x t.entries × (is_of devices classroom_id x ≡ true))
      × IsApart l
      × ((x : Reading Value)
          → Has x t.entries
          → is_of devices classroom_id x ≡ true
          → (y : Reading Value) × Has y l × IsLater y x)

  -- When the query is answered, its list shows the latest reading of each sensor of the classroom,
  -- once each, and nothing else.
  pub latest_by_classroom_ok :
      (c : Ctx) (devices : Devices.Table) (t : Table Value) (classroom_id : ℕ)
      (l : List (Reading Value))
      → latest_by_classroom c devices t classroom_id ≡ ok l
      → IsLatest devices t classroom_id l
  unfolding latest_by_classroom IsLatest
  latest_by_classroom_ok c devices t classroom_id l h =
      let mine = keep (is_of devices classroom_id) t.entries in
      let sorted = sort_with newest_first mine in
      let shown : distinct sorted ≡ l = ground arith in
      subst (IsLatest devices t classroom_id) shown (
        λ x has.
            (Has-keep (is_of devices classroom_id) x t.entries).0
              ((Has-sort_with newest_first x mine).0 (Has-distinct x sorted has)),
        distinct-IsApart sorted,
        λ x has own.
            distinct-IsLater sorted (sort_with-IsSortedWith newest_first newest_first_total mine) x
              ((Has-sort_with newest_first x mine).1
                ((Has-keep (is_of devices classroom_id) x t.entries).1 (has, own))),
      )
