-- ===== src/Schedule/Requests.antt =====
-- The requests that write the timetable, as one step on the table.
use smartclass.Prelude.{ℕ}
use smartclass.Platform.Errors.{Result, ok, err}
use smartclass.Platform.Exec.{Exec}
use smartclass.Platform.Context.{Ctx}
use smartclass.User.{Principal}
use smartclass.Classroom.Repository.{Db}
use smartclass.Schedule.Lesson.{Lesson}
use smartclass.Schedule.Repository.{Table}
use smartclass.Schedule.Service
use smartclass.Schedule.Service.{CreateInput, UpdateInput}

pub data Request : Type 0 where
  create : CreateInput → Request
  update : ℕ → UpdateInput → Request
  delete : ℕ → Request

abbrev done : Result Lesson → Result (Unit {0})
done (ok a) = ok tt
done (err e) = err e

-- A request that returns a record, without it.
abbrev forget : {S : Type 0} → Result Lesson × S → Result (Unit {0}) × S
forget r = (done r.0, r.1)

unfoldable pub perform : Ctx → Db → Principal → Request → Exec Table (Unit {0})
unfolding Service.create Service.update Service.delete
perform c school p (create input) table = forget (Service.create c school p input table)
perform c school p (update id input) table = forget (Service.update c school p id input table)
perform c school p (delete id) table = Service.delete c school p id table
