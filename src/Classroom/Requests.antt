-- ===== src/Classroom/Requests.antt =====
-- The requests that write, as one step on the tables.
use smartclass.Prelude.{ℕ, nat_eq}
use smartclass.Platform.Errors.{Result, ok, err}
use smartclass.Platform.Exec.{Exec}
use smartclass.Platform.Context.{Ctx}
use smartclass.User.{Principal}
use smartclass.Classroom.Repository.{Classroom, Db}
use smartclass.Classroom.Service
use smartclass.Classroom.Service.{CreateInput, UpdateInput}

pub data Request : Type 0 where
  create : CreateInput → Request
  update : ℕ → UpdateInput → Request
  delete : ℕ → Request
  assign unassign : ℕ → ℕ → Request

abbrev done : Result Classroom → Result (Unit {0})
done (ok a) = ok tt
done (err e) = err e

-- A request that returns a record, without it.
abbrev forget : {S : Type 0} → Result Classroom × S → Result (Unit {0}) × S
forget r = (done r.0, r.1)

unfoldable pub perform : Ctx → Principal → Request → Exec Db (Unit {0})
unfolding Service.create Service.update Service.delete Service.assign Service.unassign
perform c p (create input) db = forget (Service.create c input db)
perform c p (update id input) db = forget (Service.update c p id input db)
perform c p (delete id) db = Service.delete c p id db
perform c p (assign id user_id) db = Service.assign c p id user_id db
perform c p (unassign id user_id) db = Service.unassign c p id user_id db
