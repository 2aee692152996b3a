-- ===== src/Schedule/Examples/Http.antt =====
-- Requests to the API of one classroom's timetable.
use smartclass.Prelude.{true, some, none, ◌≡◌, refl, nat_eq, arith}
use smartclass.Prelude.Int.{pos}
use smartclass.Prelude.Dict.{empty, get, put, rows, get-empty}
use smartclass.Prelude.Text.{text}
use smartclass.Platform.Examples.{letters}
use smartclass.Device.Examples.{calm, school, teacher}
use smartclass.Classroom.Service.{authorize}
use smartclass.Schedule.TimeOfDay.{parse_time_of_day}
use smartclass.Schedule.Lesson.{Lesson, lesson_valid}
use smartclass.Schedule.Repository.{Table, create_if_no_overlap}
use smartclass.Schedule.Service
use smartclass.Schedule.Timetable.{IsTimetable}
use smartclass.Schedule.Bodies.{Dto, CreateRequest, read_create}
use smartclass.Schedule.Handler.{create}
use smartclass.Schedule.Answers.{Rules, post, handle, IsSound, handle-IsSound}
use smartclass.Schedule.Created.{create_answer}

-- The classroom is 1, and its spelling is one byte.
abbrev physics : CreateRequest
physics = record {
  classroom_id = letters.to_string 1;
  subject = "Physics";
  teacher_id = none;
  day_of_week = pos 2;
  starts_at = text "09:45";
  ends_at = text "10:30";
  notes = "";
}

abbrev any_rules : Rules
any_rules = record { create_valid = λ r. true; update_valid = λ r. true }

abbrev no_lessons : Table
no_lessons = empty

no_lessons-IsTimetable : IsTimetable no_lessons
no_lessons-IsTimetable = record {
  keyed = λ i a. grind (arith, get-empty);
  named = grind (arith, get-empty);
  valid = λ i a. unfold lesson_valid in grind (arith, get-empty);
  disjoint = λ i j a b. grind (arith, get-empty);
}

handle-IsSound_example :
    IsSound no_lessons
      (handle letters any_rules calm school (some teacher) (post (some physics)) no_lessons)
handle-IsSound_example =
    handle-IsSound letters any_rules calm school (some teacher) (post (some physics)) no_lessons
      (λ e. omega arith) no_lessons-IsTimetable

physics_created :
    (create letters (λ r. true) calm school (some teacher) (some physics) no_lessons).0.status ≡ 201
unfolding create read_create parse_time_of_day Service.create authorize get put lesson_valid
    create_if_no_overlap rows empty
physics_created = refl

create_answer_example :
    let done = create letters (λ r. true) calm school (some teacher) (some physics) no_lessons in
    (l : Lesson) × (dto : Dto) × (done.0.body ≡ some dto)
    × (letters.parse dto.id ≡ some l.id)
    × (get done.1 l.id ≡ some l)
    × (letters.parse physics.classroom_id ≡ some l.classroom_id)
    × (parse_time_of_day dto.starts_at ≡ parse_time_of_day (text "09:45"))
    × (parse_time_of_day dto.ends_at ≡ parse_time_of_day (text "10:30"))
create_answer_example =
    create_answer letters (λ r. true) calm school (some teacher) physics no_lessons physics_created
