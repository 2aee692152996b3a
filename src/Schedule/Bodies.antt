-- ===== src/Schedule/Bodies.antt =====
-- What the requests of handler.go of backend/internal/schedule read as, with dto.go. Decoding JSON and
-- the rules of the validator are parameters: a body is none where it does not decode. `DayOfWeek` is an
-- int; Valid refuses a negative one as it does 0.
use smartclass.Prelude.{nat_eq, ℕ, String, Bool, not, Option, none, some}
use smartclass.Prelude.Int.{ℤ, pos, negsuc}
use smartclass.Prelude.Text.{Text}
use smartclass.Platform.Errors.{
  Result, ok, err, bad_request, unauthorized, validation_failed, invalid_time, reject_if, ◌>>=◌,
  ◌>>◌,
}
use smartclass.Platform.Uuids.{Uuids}
use smartclass.User.{Principal}
use smartclass.Schedule.TimeOfDay.{parse_time_of_day, to_string}
use smartclass.Schedule.Lesson.{Lesson}
use smartclass.Schedule.Service.{CreateInput, UpdateInput}

pub record Dto : Type 0 where
  pub id : Text
  pub classroom_id : Text
  pub subject : String
  pub teacher_id : Option Text
  pub day_of_week : ℕ
  pub starts_at : Text
  pub ends_at : Text
  pub notes : String
  pub created_at : ℕ
  pub updated_at : ℕ

pub record CreateRequest : Type 0 where
  pub classroom_id : Text
  pub subject : String
  pub teacher_id : Option Text
  pub day_of_week : ℤ
  pub starts_at : Text
  pub ends_at : Text
  pub notes : String

pub record UpdateRequest : Type 0 where
  pub subject : Option String
  pub teacher_id : Option Text
  pub clear_teacher : Bool
  pub day_of_week : Option ℤ
  pub starts_at : Option Text
  pub ends_at : Option Text
  pub notes : Option String

abbrev pub day_of : ℤ → ℕ
day_of (pos n) = n
day_of (negsuc n) = 0

-- PrincipalFrom, decoding, validation, uuid.Parse and ParseTimeOfDay, with the errors they lead to
abbrev pub present : Option Principal → Result Principal
present none = err unauthorized
present (some p) = ok p

abbrev pub decoded : {A : Type 0} → Option A → Result A
decoded none = err bad_request
decoded (some a) = ok a

abbrev pub timed : Option ℕ → Result ℕ
timed none = err invalid_time
timed (some t) = ok t

abbrev pub optional : {A B : Type 0} → (A → Result B) → Option A → Result (Option B)
optional f none = ok none
optional f (some a) = f a >>= λ b. ok (some b)

abbrev day_or : Option ℤ → Option ℕ
day_or none = none
day_or (some d) = some (day_of d)

module _ (u : Uuids) where
  unfoldable pub to_dto : Lesson → Dto
  unfolding to_string
  to_dto l = record {
    id = u.to_string l.id;
    classroom_id = u.to_string l.classroom_id;
    subject = l.subject;
    teacher_id = elim l.teacher_id [ none ↦ none | some t ↦ some (u.to_string t) ];
    day_of_week = l.day_of_week;
    starts_at = to_string l.starts_at;
    ends_at = to_string l.ends_at;
    notes = l.notes;
    created_at = l.created_at;
    updated_at = l.updated_at;
  }

  abbrev pub parsed : Text → Result ℕ
  parsed t = decoded (u.parse t)

  abbrev pub clock_time : Text → Result ℕ
  clock_time t = timed (parse_time_of_day t)

  unfoldable pub create_input : CreateRequest → Result CreateInput
  create_input req = do
    classroom_id ← parsed req.classroom_id
    starts ← clock_time req.starts_at
    ends ← clock_time req.ends_at
    teacher ← optional parsed req.teacher_id
    ok (record {
      classroom_id = classroom_id;
      subject = req.subject;
      teacher_id = teacher;
      day_of_week = day_of req.day_of_week;
      starts_at = starts;
      ends_at = ends;
      notes = req.notes;
    })

  unfoldable pub update_input : UpdateRequest → Result UpdateInput
  update_input req = do
    starts ← optional clock_time req.starts_at
    ends ← optional clock_time req.ends_at
    teacher ← optional parsed req.teacher_id
    ok (record {
      subject = req.subject;
      teacher_id = teacher;
      clear_teacher = req.clear_teacher;
      day_of_week = day_or req.day_of_week;
      starts_at = starts;
      ends_at = ends;
      notes = req.notes;
    })

  -- What precedes the call of the service: the caller and the input
  unfoldable pub read_create :
      (CreateRequest → Bool)
      → Option Principal
      → Option CreateRequest
      → Result (Principal × CreateInput)
  unfolding create_input
  read_create valid who body = do
    p ← present who
    req ← decoded body
    reject_if (not (valid req)) validation_failed
    input ← create_input req
    ok (p, input)

  unfoldable pub read_update :
      (UpdateRequest → Bool)
      → Option Principal
      → Text
      → Option UpdateRequest
      → Result (Principal × ℕ × UpdateInput)
  unfolding update_input
  read_update valid who param body = do
    p ← present who
    id ← parsed param
    req ← decoded body
    reject_if (not (valid req)) validation_failed
    input ← update_input req
    ok (p, id, input)

  unfoldable pub read_target : Option Principal → Text → Result (Principal × ℕ)
  read_target who param = do p ← present who; id ← parsed param; ok (p, id)
