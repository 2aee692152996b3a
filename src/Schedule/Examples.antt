-- ===== src/Schedule/Examples.antt =====
-- A school with one timetable.
mod Http
use smartclass.Prelude.{
  ℕ, ◌*◌, ◌+◌, true, false, Option, some, none, List, [], ◌∷◌, ◌≡◌, refl, ◌↔◌, nat_eq, pair_eq,
  arith, keep,
}
use smartclass.Prelude.Dict.{empty, get, put, rows, get-put, get-empty}
use smartclass.Prelude.Sort.{sort_with}
use smartclass.Prelude.Text.{text}
use smartclass.Platform.Errors.{ok, err, conflict, is_ok}
use smartclass.Platform.Context.{Ctx}
use smartclass.User.{Principal}
use smartclass.Classroom.Repository.{Db}
use smartclass.Classroom.Service.{authorize}
use smartclass.Schedule.TimeOfDay.{
  time_valid, from_time, parse_time_of_day, to_string, parse-to_string,
}
use smartclass.Schedule.Lesson.{Lesson, overlaps, lesson_valid, Runs, overlaps_iff}
use smartclass.Schedule.Repository.{
  list_by_classroom_and_day, Table, peers, clashes, list_by_classroom, dated, with_overlap_check,
  create_if_no_overlap,
}
use smartclass.Schedule.Service.{
  Moment, CreateInput, current, week, first_running, fill_days, working_days, lessons_on,
}
use smartclass.Schedule.Requests
use smartclass.Schedule.Requests.{perform}
use smartclass.Schedule.Timetable.{IsTimetable, perform-IsTimetable}
use smartclass.Schedule.Current.{current_iff}
use smartclass.Schedule.Week.{is_on, week_days}
use smartclass.Schedule.Race.{World, Reach, begin, committed, race_breaks-IsTimetable}

abbrev calm : Ctx
calm = record { now = 100; fresh = λ n. n + 50; fails = λ op id. false }

abbrev school : Db
school = record {
  classrooms = put empty 1 (record {
    id = 1;
    name = text "101";
    description = [];
    created_by = 10;
    created_at = 5;
    updated_at = 5;
  });
  members = put empty (1, 10) 5;
}

abbrev owner : Principal
owner = record { user_id = 10; role = "teacher" }

abbrev algebra : Lesson
algebra = record {
  id = 7;
  classroom_id = 1;
  subject = "Algebra";
  teacher_id = none;
  day_of_week = 2;
  starts_at = 540;
  ends_at = 585;
  notes = "";
  created_at = 9;
  updated_at = 9;
}

-- It begins before algebra ends.
abbrev biology : Lesson
biology = record algebra { id = 8; subject = "Biology"; starts_at = 570; ends_at = 615 }

abbrev timetable : Table
timetable = put empty 7 algebra

abbrev tuesday_morning : Moment
tuesday_morning = record { weekday = 2; hour = 9; minute = 20 }

timetable-IsTimetable : IsTimetable timetable
timetable-IsTimetable = record {
  keyed = λ i a. grind (arith, get-put, get-empty);
  named = grind (arith, get-put, get-empty);
  valid = λ i a. unfold lesson_valid in grind (arith, get-put, get-empty);
  disjoint = λ i j a b. grind (arith, get-put, get-empty);
}

abbrev physics : CreateInput
physics = record {
  classroom_id = 1;
  subject = "Physics";
  teacher_id = some 10;
  day_of_week = 2;
  starts_at = 585;
  ends_at = 630;
  notes = "";
}

perform-IsTimetable_example :
    IsTimetable (perform calm school owner (Requests.create physics) timetable).1
perform-IsTimetable_example =
    perform-IsTimetable calm school owner (Requests.create physics) timetable (λ e. omega arith)
      timetable-IsTimetable

abbrev running_now : Option (ℕ × Lesson)
running_now = some (7, algebra)

current_iff_example : (running_now ≡ some (7, algebra)) ↔ (
    (get timetable 7 ≡ some algebra)
    × (algebra.classroom_id ≡ 1)
    × Runs algebra (from_time 2) (9 * 60 + 20))
unfolding current authorize first_running list_by_classroom_and_day get put empty rows sort_with
    from_time
current_iff_example =
    current_iff calm school timetable owner 1 tuesday_morning running_now 7 algebra
      timetable-IsTimetable refl

-- Two lessons of a Monday, when the classroom has none yet.
abbrev geometry : Lesson
geometry = record algebra { id = 9; day_of_week = 1 }

abbrev botany : Lesson
botany = record biology { day_of_week = 1 }

geometry_alone : is_ok (create_if_no_overlap calm geometry timetable).0 ≡ true
unfolding create_if_no_overlap with_overlap_check peers clashes rows put empty get
geometry_alone = refl

botany_alone : is_ok (create_if_no_overlap calm botany timetable).0 ≡ true
unfolding create_if_no_overlap with_overlap_check peers clashes rows put empty get
botany_alone = refl

race_breaks-IsTimetable_example :
    ((create_if_no_overlap calm botany (create_if_no_overlap calm geometry timetable).1).0
      ≡ err conflict)
    × (u : World) × Reach (dated calm geometry) (dated calm botany) (begin timetable) u
    × (u.first ≡ committed)
    × (u.second ≡ committed)
    × (get u.table 9 ≡ some (dated calm geometry))
    × (get u.table 8 ≡ some (dated calm botany))
    × ¬ IsTimetable u.table
unfolding peers overlaps rows put empty
race_breaks-IsTimetable_example =
    race_breaks-IsTimetable calm timetable geometry botany geometry_alone botany_alone refl refl
      (λ e. omega arith) (λ e. omega arith) refl
