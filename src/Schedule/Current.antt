-- ===== src/Schedule/Current.antt =====
-- `Service.Current`: the lesson that is taking place.
use mathlib.Core.Path.{subst}
use smartclass.Prelude.{
  ℕ, ◌+◌, ◌*◌, ◌≤◌, ◌<◌, Bool, true, false, ◌&&◌, Option, none, some, List, [], ◌∷◌, ◌≡◌, ◌≢◌, ◌↔◌,
  sym, ap, ◌∙◌, inl, inr, ◌==◌, nat_eq, ltb, leb, arith, Has, Has-keep, keep, Bool-cases,
  Option-cases,
}
use smartclass.Prelude.Dict.{get, rows, Has-rows}
use smartclass.Prelude.Sort.{sort_with, Has-sort_with}
use smartclass.Platform.Errors.{ok, Result-cases}
use smartclass.Platform.Context.{Ctx}
use smartclass.User.{Principal}
use smartclass.Classroom.Repository.{Db}
use smartclass.Schedule.TimeOfDay.{from_time}
use smartclass.Schedule.Lesson.{Lesson, Runs, overlaps_iff}
use smartclass.Schedule.Repository.{Table, by_start, list_by_classroom_and_day}
use smartclass.Schedule.Service.{Moment, first_running, current}
use smartclass.Schedule.Timetable.{IsTimetable}

abbrev running : ℕ → Lesson → Bool
running mins l = leb l.starts_at mins && ltb mins l.ends_at

first_running_sound :
    (mins : ℕ) (ls : List (ℕ × Lesson)) (p : ℕ × Lesson)
    → first_running mins ls ≡ some p
    → Has p ls × (running mins p.1 ≡ true)
unfolding first_running
first_running_sound mins [] p h = absurd (cc)
first_running_sound mins (l ∷ ls) p h = elim (Bool-cases (running mins l.1)) [
  | inl now ↦
      let same : some l ≡ some p = ground arith in
      let e : l ≡ p = ground arith in
      (inl (sym e), subst (λ (q : ℕ × Lesson). running mins q.1 ≡ true) e now)
  | inr later ↦ let (m, r) = first_running_sound mins ls p (ground arith) in (inr m, r)
]

first_running_complete :
    (mins : ℕ) (ls : List (ℕ × Lesson)) (p : ℕ × Lesson)
    → first_running mins ls ≡ none
    → Has p ls
    → running mins p.1 ≡ false
unfolding first_running
first_running_complete mins [] p h m = elim m [ ]
first_running_complete mins (l ∷ ls) p h (inl e) =
    subst (λ (q : ℕ × Lesson). running mins q.1 ≡ false) (sym e) (ground arith)
first_running_complete mins (l ∷ ls) p h (inr m) = first_running_complete mins ls p (ground arith) m

-- The rows of a listing are the stored lessons of that classroom and day.
pub Has-list_by_classroom_and_day :
    (c : Ctx) (table : Table) (classroom_id d : ℕ) (list : List (ℕ × Lesson)) (i : ℕ) (l : Lesson)
    → list_by_classroom_and_day c table classroom_id d ≡ ok list
    → Has (i, l) list
      ↔ ((get table i ≡ some l) × (l.classroom_id ≡ classroom_id) × (l.day_of_week ≡ d))
unfolding list_by_classroom_and_day
Has-list_by_classroom_and_day c table classroom_id d list i l h =
    let wanted = λ (r : ℕ × Lesson). r.1.classroom_id == classroom_id && r.1.day_of_week == d in
    let kept = keep wanted (rows table) in
    let shown : list ≡ sort_with by_start kept = ground arith in
    rw shown (
      (λ m.
          let (stored, fits) =
            (Has-keep wanted (i, l) (rows table)).0 ((Has-sort_with by_start (i, l) kept).0 m) in
          ((Has-rows table i l).0 stored, ground arith, ground arith)),
      (λ (stored, same, today).
          (Has-sort_with by_start (i, l) kept).1 (
            (Has-keep wanted (i, l) (rows table)).1 ((Has-rows table i l).1 stored, ground arith))),
    )

both_tests : (l : Lesson) (mins : ℕ) → l.starts_at ≤ mins → mins < l.ends_at → running mins l ≡ true
both_tests l mins a b = ground arith

-- No classroom has two lessons at one minute.
pub only_one :
    (table : Table) (i j : ℕ) (l b : Lesson) (d t : ℕ)
    → IsTimetable table
    → get table i ≡ some l
    → get table j ≡ some b
    → l.classroom_id ≡ b.classroom_id
    → Runs l d t
    → Runs b d t
    → ◌≡◌ {A = ℕ × Lesson} (i, l) (j, b)
only_one table i j l b d t h p q same r s = elim (Bool-cases (i == j)) [
  | inl e ↦ let k : i ≡ j = (nat_eq.beq_iff i j).0 e in let b' : l ≡ b = cc (ap (get table) k) in cc
  | inr e ↦
      let apart : i ≢ j = λ k. cc ((nat_eq.beq_iff i j).1 k) in
      absurd (
        cc (
          h.disjoint i j l b p q apart same,
          (overlaps_iff l b (h.valid i l p) (h.valid j b q)).1 (d, t, r, s),
        ))
]

module _ (c : Ctx) (school : Db) (table : Table) (p : Principal) (classroom_id : ℕ)
    (now : Moment) where
  current_list :
      (r : Option (ℕ × Lesson))
      → current c school table p classroom_id now ≡ ok r
      → (list : List (ℕ × Lesson)) × (list_by_classroom_and_day c table classroom_id
            (from_time now.weekday)
          ≡ ok list)
        × (first_running (now.hour * 60 + now.minute) list ≡ r)
  unfolding current
  current_list r h =
      elim (Result-cases (list_by_classroom_and_day c table classroom_id (from_time now.weekday))) [
        | inl (list, e) ↦ (list, e, ground arith)
        | inr (x, e) ↦ absurd (ground arith)
      ]

  -- If the stored lessons are valid and those of one classroom do not overlap in time, a Current that
  -- succeeds returns a lesson exactly if it is stored, is the classroom's, and covers the moment.
  pub current_iff :
      (r : Option (ℕ × Lesson)) (i : ℕ) (l : Lesson)
      → IsTimetable table
      → current c school table p classroom_id now ≡ ok r
      → (r ≡ some (i, l)) ↔ (
          (get table i ≡ some l)
          × (l.classroom_id ≡ classroom_id)
          × Runs l (from_time now.weekday) (now.hour * 60 + now.minute))
  current_iff r i l h e =
      let (list, shown, first) = current_list r e in
      let mins = now.hour * 60 + now.minute in
      let members = λ (j : ℕ) (b : Lesson).
        Has-list_by_classroom_and_day c table classroom_id (from_time now.weekday) list j b shown in
      (
        λ same.
            let (m, on) = first_running_sound mins list (i, l) (first ∙ same) in
            let (stored, here, today) = (members i l).0 m in
            (stored, here, (today, ground arith, ground arith)),
        λ (stored, here, (today, begun, going)). elim (Option-cases r) [
          | inl nothing ↦ absurd (
              cc (
                first_running_complete mins list (i, l) (first ∙ nothing)
                    ((members i l).1 (stored, here, today)),
                both_tests l mins begun going,
              ))
          | inr (q, found) ↦
              let (m, on) = first_running_sound mins list q (first ∙ found) in
              let (stored', here', today') = (members q.0 q.1).0 m in
              found
              ∙ ap some (
                  only_one table q.0 i q.1 l (from_time now.weekday) mins h stored' stored
                    (here' ∙ sym here) (today', ground arith, ground arith) (today, begun, going))
        ],
      )
