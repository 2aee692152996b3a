-- ===== src/Schedule/Service.antt =====
-- service.go of backend/internal/schedule. `school` holds the classroom package's tables, which
-- this service only reads, through `authorize`.
use smartclass.Prelude.{
  ℕ, String, ◌+◌, ◌*◌, Bool, true, false, not, ◌&&◌, Option, none, some, List, [], ◌∷◌, ◌++◌, leb,
  ltb, nat_eq, if◌then◌else◌,
}
use smartclass.Prelude.Dict.{Dict, empty, get, put}
use smartclass.Platform.Errors.{
  Result, ok, not_found_as, conflict_as, reject_if, lesson_not_found, lesson_overlaps, invalid_time,
  ◌>>=◌, ◌>>◌,
}
use smartclass.Platform.Exec
use smartclass.Platform.Exec.{Exec, mapping, read}
use smartclass.Platform.Context.{Ctx}
use smartclass.User.{Principal}
use smartclass.Classroom.Repository.{Db}
use smartclass.Classroom.Service.{authorize}
use smartclass.Schedule.TimeOfDay.{day_valid, from_time}
use smartclass.Schedule.Lesson.{Lesson, lesson_valid}
use smartclass.Schedule.Repository
use smartclass.Schedule.Repository.{
  Table, get_by_id, list_by_classroom, list_by_classroom_and_day, create_if_no_overlap,
  update_if_no_overlap,
}

pub record CreateInput : Type 0 where
  pub classroom_id : ℕ
  pub subject : String
  pub teacher_id : Option ℕ
  pub day_of_week : ℕ
  pub starts_at : ℕ
  pub ends_at : ℕ
  pub notes : String

abbrev pub new_lesson : Ctx → CreateInput → Lesson
new_lesson c input = record {
  id = c.fresh 0;
  classroom_id = input.classroom_id;
  subject = input.subject;
  teacher_id = input.teacher_id;
  day_of_week = input.day_of_week;
  starts_at = input.starts_at;
  ends_at = input.ends_at;
  notes = input.notes;
  created_at = 0;
  updated_at = 0;
}

unfoldable pub create : Ctx → Db → Principal → CreateInput → Exec Table Lesson
create c school p input =
    Exec.◌>>=◌ (read λ table. authorize c school p input.classroom_id true) λ _.
      Exec.◌>>=◌ (read λ table. reject_if (not (lesson_valid (new_lesson c input))) invalid_time)
        λ _. mapping (conflict_as lesson_overlaps) (create_if_no_overlap c (new_lesson c input))

pub record UpdateInput : Type 0 where
  pub subject : Option String
  pub teacher_id : Option ℕ
  pub clear_teacher : Bool
  pub day_of_week : Option ℕ
  pub starts_at : Option ℕ
  pub ends_at : Option ℕ
  pub notes : Option String

-- `if in.F != nil { l.F = *in.F }`
abbrev pub or_keep {ℓ} : {A : Type ℓ} → Option A → A → A
or_keep none old = old
or_keep (some new) old = new

abbrev new_teacher : UpdateInput → Option ℕ → Option ℕ
new_teacher input old =
    if input.clear_teacher then none else elim input.teacher_id [ none ↦ old | some t ↦ some t ]

abbrev pub edited : UpdateInput → Lesson → Lesson
edited input l = record l {
  subject = or_keep input.subject l.subject;
  teacher_id = new_teacher input l.teacher_id;
  day_of_week = or_keep input.day_of_week l.day_of_week;
  starts_at = or_keep input.starts_at l.starts_at;
  ends_at = or_keep input.ends_at l.ends_at;
  notes = or_keep input.notes l.notes;
}

-- Service.get
unfoldable pub find : Ctx → Table → ℕ → Result Lesson
unfolding get_by_id
find c table id = not_found_as lesson_not_found (get_by_id c table id)

unfoldable pub update : Ctx → Db → Principal → ℕ → UpdateInput → Exec Table Lesson
update c school p id input = Exec.◌>>=◌ (read λ table. find c table id) λ l.
    Exec.◌>>=◌ (read λ table. authorize c school p l.classroom_id true) λ _.
      Exec.◌>>=◌ (read λ table. reject_if (not (lesson_valid (edited input l))) invalid_time) λ _.
        mapping (λ r. conflict_as lesson_overlaps (not_found_as lesson_not_found r))
          (update_if_no_overlap c (edited input l))

unfoldable pub delete : Ctx → Db → Principal → ℕ → Exec Table (Unit {0})
delete c school p id = Exec.◌>>=◌ (read λ table. find c table id) λ l.
    Exec.◌>>=◌ (read λ table. authorize c school p l.classroom_id true) λ _. Repository.delete c id

-- `for d := Monday; d <= Friday; d++ { out[d] = []*Lesson{} }`
unfoldable pub working_days : Dict ℕ (List (ℕ × Lesson))
unfolding empty put
working_days = put (put (put (put (put empty 1 []) 2 []) 3 []) 4 []) 5 []

abbrev pub lessons_on : Dict ℕ (List (ℕ × Lesson)) → ℕ → List (ℕ × Lesson)
lessons_on out d = or_keep (get out d) []

-- `out[l.DayOfWeek] = append(out[l.DayOfWeek], l)` for each lesson
unfoldable pub fill_days :
    Dict ℕ (List (ℕ × Lesson)) → List (ℕ × Lesson) → Dict ℕ (List (ℕ × Lesson))
fill_days out [] = out
fill_days out (l ∷ ls) =
    fill_days (put out l.1.day_of_week (lessons_on out l.1.day_of_week ++ l ∷ [])) ls

unfoldable pub week : Ctx → Db → Table → Principal → ℕ → Result (Dict ℕ (List (ℕ × Lesson)))
week c school table p classroom_id = do
  authorize c school p classroom_id false
  list ← list_by_classroom c table classroom_id
  ok (fill_days working_days list)

unfoldable pub day : Ctx → Db → Table → Principal → ℕ → ℕ → Result (List (ℕ × Lesson))
day c school table p classroom_id d = do
  authorize c school p classroom_id false
  reject_if (not (day_valid d)) invalid_time
  list_by_classroom_and_day c table classroom_id d

-- What the clock says: the weekday, the hour and the minute of `s.clock()`.
pub record Moment : Type 0 where
  pub weekday : ℕ
  pub hour : ℕ
  pub minute : ℕ

-- The loop of Current: the first lesson that has begun and not ended.
unfoldable pub first_running : ℕ → List (ℕ × Lesson) → Option (ℕ × Lesson)
first_running mins [] = none
first_running mins (l ∷ ls) =
    let rest = first_running mins ls in
    if leb l.1.starts_at mins && ltb mins l.1.ends_at then some l else rest

unfoldable pub current : Ctx → Db → Table → Principal → ℕ → Moment → Result (Option (ℕ × Lesson))
current c school table p classroom_id now = do
  authorize c school p classroom_id false
  list ← list_by_classroom_and_day c table classroom_id (from_time now.weekday)
  ok (first_running (now.hour * 60 + now.minute) list)
