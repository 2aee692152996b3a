-- ===== src/Schedule/Handler.antt =====
-- handler.go of backend/internal/schedule: the calls of the service, and the answers.
use smartclass.Prelude.{nat_eq, ℕ, Bool, Option, none, some, List, map}
use smartclass.Prelude.Int.{ℤ}
use smartclass.Prelude.Dict.{Dict, rows}
use smartclass.Prelude.Text.{Text}
use smartclass.Platform.Errors.{Result, ok, err, ◌>>=◌}
use smartclass.Platform.Context.{Ctx}
use smartclass.Platform.Uuids.{Uuids}
use smartclass.Platform.Http.{Response, json, empty, write_error}
use smartclass.User.{Principal}
use smartclass.Classroom.Repository.{Db}
use smartclass.Schedule.Lesson.{Lesson}
use smartclass.Schedule.Repository.{Table}
use smartclass.Schedule.Service
use smartclass.Schedule.Service.{CreateInput, UpdateInput, Moment}
use smartclass.Schedule.Bodies.{
  Dto, CreateRequest, UpdateRequest, day_of, decoded, to_dto, read_create, read_update, read_target,
}

module _ (u : Uuids) where
  abbrev pub shown : ℕ → Result Lesson × Table → Response Dto × Table
  shown status (ok l, table) = (json status (to_dto u l), table)
  shown status (err e, table) = (write_error e, table)

  abbrev pub emptied : Result (Unit {0}) × Table → Response Dto × Table
  emptied (ok a, table) = (empty 204, table)
  emptied (err e, table) = (write_error e, table)

  -- The call of the service, and the answer
  abbrev pub created : Ctx → Db → Result (Principal × CreateInput) → Table → Response Dto × Table
  created c school (err e) table = (write_error e, table)
  created c school (ok (p, input)) table = shown 201 (Service.create c school p input table)

  abbrev pub updated :
      Ctx → Db → Result (Principal × ℕ × UpdateInput) → Table → Response Dto × Table
  updated c school (err e) table = (write_error e, table)
  updated c school (ok (p, id, input)) table = shown 200 (Service.update c school p id input table)

  abbrev pub deleted : Ctx → Db → Result (Principal × ℕ) → Table → Response Dto × Table
  deleted c school (err e) table = (write_error e, table)
  deleted c school (ok (p, id)) table = emptied (Service.delete c school p id table)

  unfoldable pub create :
      (CreateRequest → Bool)
      → Ctx
      → Db
      → Option Principal
      → Option CreateRequest
      → Table
      → Response Dto × Table
  unfolding to_dto read_create write_error
  create valid c school who body table = created c school (read_create u valid who body) table

  unfoldable pub update :
      (UpdateRequest → Bool)
      → Ctx
      → Db
      → Option Principal
      → Text
      → Option UpdateRequest
      → Table
      → Response Dto × Table
  unfolding to_dto read_update write_error
  update valid c school who param body table =
      updated c school (read_update u valid who param body) table

  unfoldable pub delete : Ctx → Db → Option Principal → Text → Table → Response Dto × Table
  unfolding read_target write_error
  delete c school who param table = deleted c school (read_target u who param) table

  abbrev answer : {A B : Type 0} → (A → B) → Result A → Response B
  answer f (ok a) = json 200 (f a)
  answer f (err e) = write_error e

  abbrev dtos : List (ℕ × Lesson) → List Dto
  dtos ls = map (λ (l : ℕ × Lesson). to_dto u l.1) ls

  -- The days as an object: the list of its entries
  unfoldable pub week : Ctx → Db → Table → Option Principal → Text → Response (List (ℕ × List Dto))
  unfolding to_dto read_target write_error
  week c school table who param =
      answer
        (λ (days : Dict ℕ (List (ℕ × Lesson))).
          map (λ (d : ℕ × List (ℕ × Lesson)). (d.0, dtos d.1)) (rows days))
        (do target ← read_target u who param; Service.week c school table target.0 target.1)

  -- strconv.Atoi is a parameter.
  unfoldable pub day :
      (Text → Option ℤ) → Ctx → Db → Table → Option Principal → Text → Text → Response (List Dto)
  unfolding to_dto read_target write_error
  day atoi c school table who param number = answer dtos (do
    target ← read_target u who param
    d ← decoded (atoi number)
    Service.day c school table target.0 target.1 (day_of d))

  abbrev shown_current : Result (Option (ℕ × Lesson)) → Response Dto
  shown_current (err e) = write_error e
  shown_current (ok none) = empty 200
  shown_current (ok (some l)) = json 200 (to_dto u l.1)

  unfoldable pub current : Ctx → Db → Table → Option Principal → Text → Moment → Response Dto
  unfolding to_dto read_target write_error
  current c school table who param now =
      shown_current
        (do target ← read_target u who param; Service.current c school table target.0 target.1 now)
