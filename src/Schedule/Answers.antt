-- ===== src/Schedule/Answers.antt =====
-- What the requests of handler.go of backend/internal/schedule leave of the timetable, and what the
-- answer to a created lesson shows.
use smartclass.Prelude.{
  ℕ, ◌≤◌, ◌<◌, Bool, true, not, Option, ◌≡◌, ◌≢◌, ◌⊎◌, inl, inr, refl, ap, nat_eq, arith,
}
use smartclass.Prelude.Text.{Text}
use smartclass.Platform.Errors.{
  Error, Result, ok, err, Result-cases, reject_if, conflict_as, not_found_as, lesson_overlaps,
  lesson_not_found, invalid_time,
}
use smartclass.Platform.Exec.{Exec, read, mapping, ◌>>=◌}
use smartclass.Classroom.Service.{authorize}
use smartclass.Schedule.Repository
use smartclass.Platform.Context.{Ctx}
use smartclass.Platform.Uuids.{Uuids}
use smartclass.Platform.Http.{Response, domain_error, write_error}
use smartclass.User.{Principal}
use smartclass.Classroom.Repository.{Db}
use smartclass.Schedule.Lesson.{Lesson, lesson_valid}
use smartclass.Schedule.Repository.{
  Table, uuid_nil, with_overlap_check, create_if_no_overlap, update_if_no_overlap,
}
use smartclass.Schedule.Service
use smartclass.Schedule.Requests
use smartclass.Schedule.Requests.{perform}
use smartclass.Schedule.Timetable.{IsTimetable, perform-IsTimetable}
use smartclass.Schedule.Bodies.{Dto, CreateRequest, UpdateRequest}
use smartclass.Schedule.Handler.{shown, emptied, created, updated, deleted, create, update, delete}

-- A request of the API that writes the timetable, as it comes in
pub data Incoming : Type 0 where
  post : Option CreateRequest → Incoming
  patch : Text → Option UpdateRequest → Incoming
  remove : Text → Incoming

-- The rules of the validator
pub record Rules : Type 0 where
  pub create_valid : CreateRequest → Bool
  pub update_valid : UpdateRequest → Bool

unfoldable pub handle :
    Uuids → Rules → Ctx → Db → Option Principal → Incoming → Table → Response Dto × Table
unfolding create update delete
handle u rules c school who (post body) table = create u rules.create_valid c school who body table
handle u rules c school who (patch param body) table =
    update u rules.update_valid c school who param body table
handle u rules c school who (remove param) table = delete u c school who param table

pub write_error_status : (e : Error) → 400 ≤ (write_error {A = Dto} e).status
unfolding write_error domain_error
write_error_status e = ground arith

-- A method that fails has changed nothing.
abbrev Undoes : {A : Type 0} → Exec Table A → Type 0
Undoes m = (table : Table) (e : Error) → (m table).0 ≡ err e → (m table).1 ≡ table

read-Undoes :
    {A B : Type 0} (check : Table → Result A) (f : A → Exec Table B)
    → ((a : A) → Undoes (f a))
    → Undoes (read check >>= f)
read-Undoes check f later table e h = elim (Result-cases (check table)) [
  | inr (x, refused) ↦ rw refused refl
  | inl (a, fine) ↦ rw fine (later a table e (rw fine at h))
]

mapping-Undoes :
    {A : Type 0} (f : Result A → Result A) (m : Exec Table A)
    → ((a : A) → f (ok a) ≡ ok a)
    → Undoes m
    → Undoes (mapping f m)
mapping-Undoes f m fine undone table e h = elim (Result-cases (m table).0) [
  | inl (a, good) ↦ absurd (cc (fine a, ap f good, h))
  | inr (x, failed) ↦ undone table x failed
]

create_if_no_overlap-Undoes : (c : Ctx) (l : Lesson) → Undoes (create_if_no_overlap c l)
unfolding create_if_no_overlap with_overlap_check
create_if_no_overlap-Undoes c l table e h = ground arith

update_if_no_overlap-Undoes : (c : Ctx) (l : Lesson) → Undoes (update_if_no_overlap c l)
unfolding update_if_no_overlap with_overlap_check
update_if_no_overlap-Undoes c l table e h = ground arith

delete-Undoes : (c : Ctx) (id : ℕ) → Undoes (Repository.delete c id)
unfolding Repository.delete
delete-Undoes c id table e h = ground arith

module _ (c : Ctx) (school : Db) (p : Principal) where
  create-Undoes : (input : Service.CreateInput) → Undoes (Service.create c school p input)
  unfolding Service.create
  create-Undoes input =
      read-Undoes (λ table. authorize c school p input.classroom_id true) _
        λ u.
          read-Undoes
            (λ table. reject_if (not (lesson_valid (Service.new_lesson c input))) invalid_time) _
            λ v.
              mapping-Undoes (conflict_as lesson_overlaps) _ (λ a. refl)
                (create_if_no_overlap-Undoes c (Service.new_lesson c input))

  update-Undoes :
      (id : ℕ) (input : Service.UpdateInput) → Undoes (Service.update c school p id input)
  unfolding Service.update
  update-Undoes id input =
      read-Undoes (λ table. Service.find c table id) _
        λ l.
          read-Undoes (λ table. authorize c school p l.classroom_id true) _
            λ u.
              read-Undoes
                (λ table. reject_if (not (lesson_valid (Service.edited input l))) invalid_time) _
                λ v.
                  mapping-Undoes
                    (λ r. conflict_as lesson_overlaps (not_found_as lesson_not_found r)) _
                    (λ a. refl) (update_if_no_overlap-Undoes c (Service.edited input l))

  remove-Undoes : (id : ℕ) → Undoes (Service.delete c school p id)
  unfolding Service.delete
  remove-Undoes id =
      read-Undoes (λ table. Service.find c table id) _
        λ l.
          read-Undoes (λ table. authorize c school p l.classroom_id true) _ λ u. delete-Undoes c id

-- A timetable stays one; and a request that is answered with an error leaves it as it was.
abbrev pub IsSound : Table → Response Dto × Table → Type 0
IsSound table (answer, after) =
    IsTimetable after × ((answer.status < 400) ⊎ ((400 ≤ answer.status) × (after ≡ table)))

shown-IsSound :
    (u : Uuids) (status : ℕ) (table : Table) (r : Result Lesson × Table)
    → status < 400
    → IsTimetable r.1
    → ((e : Error) → r.0 ≡ err e → r.1 ≡ table)
    → IsSound table (shown u status r)
shown-IsSound u status table (ok l, after) small kept undone = (kept, inl small)
shown-IsSound u status table (err e, after) small kept undone =
    (kept, inr (write_error_status e, undone e refl))

emptied-IsSound :
    (u : Uuids) (table : Table) (r : Result (Unit {0}) × Table)
    → IsTimetable r.1
    → ((e : Error) → r.0 ≡ err e → r.1 ≡ table)
    → IsSound table (emptied u r)
emptied-IsSound u table (ok a, after) kept undone = (kept, inl (omega arith))
emptied-IsSound u table (err e, after) kept undone =
    (kept, inr (write_error_status e, undone e refl))

module _ (u : Uuids) (c : Ctx) (school : Db) (table : Table) (real : c.fresh 0 ≢ uuid_nil)
    (kept : IsTimetable table) where
  created-IsSound :
      (r : Result (Principal × Service.CreateInput)) → IsSound table (created u c school r table)
  unfolding perform
  created-IsSound (err e) = (kept, inr (write_error_status e, refl))
  created-IsSound (ok (p, input)) =
      shown-IsSound u 201 table (Service.create c school p input table) (omega arith)
        (perform-IsTimetable c school p (Requests.create input) table real kept)
        (λ e. create-Undoes c school p input table e)

  updated-IsSound :
      (r : Result (Principal × ℕ × Service.UpdateInput))
      → IsSound table (updated u c school r table)
  unfolding perform
  updated-IsSound (err e) = (kept, inr (write_error_status e, refl))
  updated-IsSound (ok (p, id, input)) =
      shown-IsSound u 200 table (Service.update c school p id input table) (omega arith)
        (perform-IsTimetable c school p (Requests.update id input) table real kept)
        (λ e. update-Undoes c school p id input table e)

  deleted-IsSound : (r : Result (Principal × ℕ)) → IsSound table (deleted u c school r table)
  unfolding perform
  deleted-IsSound (err e) = (kept, inr (write_error_status e, refl))
  deleted-IsSound (ok (p, id)) =
      emptied-IsSound u table (Service.delete c school p id table)
        (perform-IsTimetable c school p (Requests.delete id) table real kept)
        (λ e. remove-Undoes c school p id table e)

-- Every request that writes the timetable over HTTP, with or without a principal and with any body,
-- keeps the stored lessons valid and those of one classroom apart; and if its answer is an error, with
-- a status of 400 or more, the table is unchanged. `uuid.New` does not return the nil uuid.
pub handle-IsSound :
    (u : Uuids) (rules : Rules) (c : Ctx) (school : Db) (who : Option Principal) (r : Incoming)
    (table : Table)
    → c.fresh 0 ≢ uuid_nil
    → IsTimetable table
    → IsSound table (handle u rules c school who r table)
unfolding handle create update delete
handle-IsSound u rules c school who (post body) table real kept =
    created-IsSound u c school table real kept _
handle-IsSound u rules c school who (patch param body) table real kept =
    updated-IsSound u c school table real kept _
handle-IsSound u rules c school who (remove param) table real kept =
    deleted-IsSound u c school table real kept _
