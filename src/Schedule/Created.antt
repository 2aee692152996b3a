-- ===== src/Schedule/Created.antt =====
-- The answer to a POST of handler.go of backend/internal/schedule, against the request and the table.
use smartclass.Prelude.{
  ℕ, Bool, true, Option, some, ◌≡◌, inl, inr, refl, sym, ap, ◌∙◌, nat_eq, arith, Bool-cases,
}
use smartclass.Prelude.Dict.{get, get-put}
use smartclass.Prelude.Text.{Text}
use smartclass.Platform.Errors.{Result, ok, err, Result-cases}
use smartclass.Platform.Context.{Ctx}
use smartclass.Platform.Uuids.{Uuids}
use smartclass.Platform.Http.{Response}
use smartclass.User.{Principal}
use smartclass.Classroom.Repository.{Db}
use smartclass.Classroom.Service.{authorize}
use smartclass.Schedule.TimeOfDay.{parse_time_of_day, to_string, parse-to_string, parse-time_valid}
use smartclass.Schedule.Lesson.{Lesson, lesson_valid}
use smartclass.Schedule.Repository.{Table, with_overlap_check, create_if_no_overlap}
use smartclass.Schedule.Service
use smartclass.Schedule.Bodies.{Dto, CreateRequest, read_create, create_input, to_dto}
use smartclass.Schedule.Handler.{shown, created, create}
use smartclass.Schedule.Answers.{write_error_status}

if_stored :
    (c : Ctx) (l k : Lesson) (table : Table)
    → (create_if_no_overlap c l table).0 ≡ ok k
    → (k ≡ record l { created_at = c.now; updated_at = c.now })
      × (get (create_if_no_overlap c l table).1 k.id ≡ some k)
unfolding create_if_no_overlap with_overlap_check
if_stored c l k table h = ground (
  arith,
  get-put table l.id l.id (record l { created_at = c.now; updated_at = c.now }),
  nat_eq.beq_iff l.id l.id,
)

create_stored :
    (c : Ctx) (school : Db) (p : Principal) (input : Service.CreateInput) (table : Table)
    (l : Lesson)
    → (Service.create c school p input table).0 ≡ ok l
    → (l ≡ record (Service.new_lesson c input) { created_at = c.now; updated_at = c.now })
      × (get (Service.create c school p input table).1 l.id ≡ some l)
unfolding Service.create
create_stored c school p input table l h =
    elim (Result-cases (authorize c school p input.classroom_id true)) [
      | inr (e, refused) ↦ absurd (ground (arith, refused))
      | inl (u, allowed) ↦ elim (Bool-cases (lesson_valid (Service.new_lesson c input))) [
        | inr bad ↦ absurd (ground (arith, allowed, bad))
        | inl good ↦
            elim (Result-cases (create_if_no_overlap c (Service.new_lesson c input) table).0) [
              | inr (e, failed) ↦ absurd (ground (arith, allowed, good, failed))
              | inl (k, made) ↦
                  let same : k ≡ l = ground (arith, allowed, good, made) in
                  let (row, there) = if_stored c (Service.new_lesson c input) k table made in
                  (sym same ∙ row, rw (← same) (rw (allowed, good) there))
            ]
      ]
    ]

-- What a POST reads of its body
read_create_ok :
    (u : Uuids) (valid : CreateRequest → Bool) (who : Option Principal) (req : CreateRequest)
    (p : Principal) (input : Service.CreateInput)
    → read_create u valid who (some req) ≡ ok (p, input)
    → (u.parse req.classroom_id ≡ some input.classroom_id)
      × (parse_time_of_day req.starts_at ≡ some input.starts_at)
      × (parse_time_of_day req.ends_at ≡ some input.ends_at)
unfolding read_create create_input
read_create_ok u valid who req p input h = ground arith

shown_created :
    (u : Uuids) (r : Result Lesson × Table)
    → (shown u 201 r).0.status ≡ 201
    → (l : Lesson) × (r.0 ≡ ok l) × ((shown u 201 r).0.body ≡ some (to_dto u l))
shown_created u (ok l, table) h = (l, refl, refl)
shown_created u (err e, table) h = absurd (omega (arith, h, write_error_status e))

shown_time :
    (t : Text) (n m : ℕ)
    → parse_time_of_day t ≡ some n
    → m ≡ n
    → parse_time_of_day (to_string m) ≡ parse_time_of_day t
shown_time t n m read same =
    ap (λ k. parse_time_of_day (to_string k)) same
    ∙ parse-to_string n (parse-time_valid t n read)
    ∙ sym read

abbrev Shows : Uuids → CreateRequest → Response Dto × Table → Type 0
Shows u req (answer, after) =
    (l : Lesson) × (dto : Dto) × (answer.body ≡ some dto)
    × (u.parse dto.id ≡ some l.id)
    × (get after l.id ≡ some l)
    × (u.parse req.classroom_id ≡ some l.classroom_id)
    × (parse_time_of_day dto.starts_at ≡ parse_time_of_day req.starts_at)
    × (parse_time_of_day dto.ends_at ≡ parse_time_of_day req.ends_at)

created_answer :
    (u : Uuids) (c : Ctx) (school : Db) (req : CreateRequest) (table : Table)
    (r : Result (Principal × Service.CreateInput))
    → ((p : Principal) (input : Service.CreateInput)
        → r ≡ ok (p, input)
        → (u.parse req.classroom_id ≡ some input.classroom_id)
          × (parse_time_of_day req.starts_at ≡ some input.starts_at)
          × (parse_time_of_day req.ends_at ≡ some input.ends_at))
    → (created u c school r table).0.status ≡ 201
    → Shows u req (created u c school r table)
unfolding to_dto
created_answer u c school req table (err e) agrees h =
    absurd (omega (arith, h, write_error_status e))
created_answer u c school req table (ok (p, input)) agrees h =
    let (room, starts, ends) = agrees p input refl in
    let (l, made, body) = shown_created u (Service.create c school p input table) h in
    let (row, there) = create_stored c school p input table l made in
    (
      l,
      to_dto u l,
      body,
      u.parse-to_string l.id,
      rw made there,
      room ∙ ap (λ (x : Lesson). some x.classroom_id) (sym row),
      shown_time req.starts_at input.starts_at l.starts_at starts
          (ap (λ (x : Lesson). x.starts_at) row),
      shown_time req.ends_at input.ends_at l.ends_at ends (ap (λ (x : Lesson). x.ends_at) row),
    )

-- A POST that is answered with 201 has stored a lesson under the id that the answer shows, with the
-- classroom of the request; and the times that the answer shows are read as those of the request.
pub create_answer :
    (u : Uuids) (valid : CreateRequest → Bool) (c : Ctx) (school : Db) (who : Option Principal)
    (req : CreateRequest) (table : Table)
    → (create u valid c school who (some req) table).0.status ≡ 201
    → (l : Lesson) × (dto : Dto) × ((create u valid c school who (some req) table).0.body
        ≡ some dto)
      × (u.parse dto.id ≡ some l.id)
      × (get (create u valid c school who (some req) table).1 l.id ≡ some l)
      × (u.parse req.classroom_id ≡ some l.classroom_id)
      × (parse_time_of_day dto.starts_at ≡ parse_time_of_day req.starts_at)
      × (parse_time_of_day dto.ends_at ≡ parse_time_of_day req.ends_at)
unfolding create
create_answer u valid c school who req table h =
    created_answer u c school req table (read_create u valid who (some req))
      (read_create_ok u valid who req) h
