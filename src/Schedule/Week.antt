-- ===== src/Schedule/Week.antt =====
-- `Service.Week`: the lessons of a classroom by day.
use smartclass.Prelude.{
  append-nil, append_assoc, ℕ, Bool, List, [], ◌∷◌, ◌++◌, ◌≡◌, refl, sym, ◌∙◌, nat_eq, ◌==◌, arith,
  keep, Bool-cases, inl, inr,
}
use smartclass.Prelude.Dict.{Dict, put, get-put, get-empty}
use smartclass.Platform.Errors.{ok, Result-cases}
use smartclass.Platform.Context.{Ctx}
use smartclass.User.{Principal}
use smartclass.Classroom.Repository.{Db}
use smartclass.Schedule.Lesson.{Lesson}
use smartclass.Schedule.Repository.{Table, list_by_classroom}
use smartclass.Schedule.Service.{week, fill_days, working_days, lessons_on}

abbrev pub is_on : ℕ → ℕ × Lesson → Bool
is_on d l = l.1.day_of_week == d

one_more :
    (out : Dict ℕ (List (ℕ × Lesson))) (l : ℕ × Lesson) (ls : List (ℕ × Lesson)) (d : ℕ)
    → lessons_on (put out l.1.day_of_week (lessons_on out l.1.day_of_week ++ l ∷ [])) d
        ++ keep (is_on d) ls
      ≡ lessons_on out d ++ keep (is_on d) (l ∷ ls)
one_more out l ls d = elim (Bool-cases (l.1.day_of_week == d)) [
  | inl e ↦
      let k : l.1.day_of_week ≡ d = (nat_eq.beq_iff _ d).0 e in
      rw (get-put, e) (simp k (append_assoc (lessons_on out d) (l ∷ []) (keep (is_on d) ls)))
  | inr e ↦ rw (get-put, e) refl
]

-- Filling the map adds to each day its lessons, in the order of the list.
lessons_on-fill_days :
    (out : Dict ℕ (List (ℕ × Lesson))) (ls : List (ℕ × Lesson)) (d : ℕ)
    → lessons_on (fill_days out ls) d ≡ lessons_on out d ++ keep (is_on d) ls
unfolding fill_days
lessons_on-fill_days out [] d = sym (append-nil (lessons_on out d))
lessons_on-fill_days out (l ∷ ls) d =
    let k = l.1.day_of_week in
    let more = lessons_on out k ++ l ∷ [] in
    lessons_on-fill_days (put out k more) ls d ∙ one_more out l ls d

lessons_on-working_days : (d : ℕ) → lessons_on working_days d ≡ []
unfolding working_days
lessons_on-working_days d = simp (get-put, get-empty) (ground arith)

-- Week lists under each day exactly the lessons of that day, in the order in which the repository
-- lists the classroom's lessons.
pub week_days :
    (c : Ctx) (school : Db) (table : Table) (p : Principal) (classroom_id : ℕ) (d : ℕ)
    → (out : Dict ℕ (List (ℕ × Lesson))) → week c school table p classroom_id ≡ ok out
    → (list : List (ℕ × Lesson)) × (list_by_classroom c table classroom_id ≡ ok list)
      × (lessons_on out d ≡ keep (is_on d) list)
unfolding week
week_days c school table p classroom_id d out h =
    elim (Result-cases (list_by_classroom c table classroom_id)) [
      | inl (list, e) ↦
          let filled : out ≡ fill_days working_days list = ground arith in
          (list, e, rw (filled, lessons_on-fill_days, lessons_on-working_days) refl)
      | inr (x, e) ↦ absurd (ground arith)
    ]
