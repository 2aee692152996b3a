-- ===== src/Schedule/Repository.antt =====
-- postgres.go of backend/internal/schedule, over the table `lessons` (migrations/00004_schedule.sql).
-- A transaction runs here from its start to its commit with no other in between; `Schedule.Race`
-- is about those that interleave.
use smartclass.Prelude.{
  ℕ, Bool, true, false, ◌&&◌, ◌||◌, not, Option, none, some, List, [], ◌∷◌, ◌==◌, nat_eq, keep, ltb,
  leb, if◌then◌else◌,
}
use smartclass.Prelude.Dict.{Dict, get, put, remove, rows}
use smartclass.Prelude.Sort.{sort_with}
use smartclass.Platform.Errors.{Result, ok, err, not_found, conflict, internal}
use smartclass.Platform.Exec.{Exec}
use smartclass.Platform.Context.{Ctx, query}
use smartclass.Schedule.Lesson.{Lesson, overlaps}

abbrev pub Table : Type 0
Table = Dict ℕ Lesson

abbrev pub uuid_nil : ℕ
uuid_nil = 0

-- SELECT … WHERE classroom_id=$1 AND day_of_week=$2 FOR UPDATE
unfoldable pub peers : Table → Lesson → List (ℕ × Lesson)
peers table l =
    keep (λ p. p.1.classroom_id == l.classroom_id && p.1.day_of_week == l.day_of_week) (rows table)

-- The loop over the peers: true where it returns ErrConflict.
unfoldable pub clashes : ℕ → Lesson → List (ℕ × Lesson) → Bool
unfolding overlaps
clashes exclude_id l [] = false
clashes exclude_id l (p ∷ ps) =
    let rest = clashes exclude_id l ps in
    if p.0 == exclude_id then rest else if overlaps p.1 l then true else rest

-- `failed` is an error of the driver in the transaction, at any of its statements.
unfoldable pub with_overlap_check :
    Bool → Lesson → ℕ → (Table → Result Lesson × Table) → Table → Result Lesson × Table
unfolding peers clashes
with_overlap_check failed l exclude_id write table =
    if failed
    then (err internal, table)
    else if clashes exclude_id l (peers table l)
    then (err conflict, table)
    else write table

-- The CHECK constraints of the table.
abbrev pub row_checked : Lesson → Bool
row_checked l = leb 1 l.day_of_week && leb l.day_of_week 7 && ltb l.starts_at l.ends_at

abbrev pub is_some {ℓ} : {A : Type ℓ} → Option A → Bool
is_some none = false
is_some (some a) = true

-- The row that CreateIfNoOverlap inserts
abbrev pub dated : Ctx → Lesson → Lesson
dated c l = record l { created_at = c.now; updated_at = c.now }

-- The INSERT, with the primary key and the CHECK constraints of the table: one that breaks them fails.
abbrev pub insert_row : Lesson → Exec Table Lesson
insert_row row table =
    if is_some (get table row.id) || not (row_checked row)
    then (err internal, table)
    else (ok row, put table row.id row)

-- `l.ID` is not uuid.Nil here: the service sets it.
unfoldable pub create_if_no_overlap : Ctx → Lesson → Exec Table Lesson
unfolding with_overlap_check
create_if_no_overlap c l =
    with_overlap_check (c.fails "schedule.CreateIfNoOverlap" l.id) (dated c l) uuid_nil
      (insert_row (dated c l))

-- The classroom and the creation time of the row stay.
unfoldable pub update_if_no_overlap : Ctx → Lesson → Exec Table Lesson
unfolding with_overlap_check
update_if_no_overlap c l =
    let row = record l { updated_at = c.now } in
    with_overlap_check (c.fails "schedule.UpdateIfNoOverlap" l.id) row l.id λ table.
      elim (get table l.id) [
        | none ↦ (err not_found, table)
        | some old ↦ if not (row_checked row) then (err internal, table) else (
          ok row,
          put table l.id (record row {
            id = old.id;
            classroom_id = old.classroom_id;
            created_at = old.created_at;
          }),
        )
      ]

unfoldable pub get_by_id : Ctx → Table → ℕ → Result Lesson
get_by_id c table id =
    query c "schedule.GetByID" id (elim (get table id) [ none ↦ err not_found | some l ↦ ok l ])

-- ORDER BY day_of_week, starts_at
abbrev pub by_day_and_start : ℕ × Lesson → ℕ × Lesson → Bool
by_day_and_start a b =
    if ltb a.1.day_of_week b.1.day_of_week
    then true
    else a.1.day_of_week == b.1.day_of_week && leb a.1.starts_at b.1.starts_at

unfoldable pub list_by_classroom : Ctx → Table → ℕ → Result (List (ℕ × Lesson))
list_by_classroom c table classroom_id =
    query c "schedule.ListByClassroom" classroom_id
      (ok (sort_with by_day_and_start (keep (λ r. r.1.classroom_id == classroom_id) (rows table))))

-- ORDER BY starts_at
abbrev pub by_start : ℕ × Lesson → ℕ × Lesson → Bool
by_start a b = leb a.1.starts_at b.1.starts_at

unfoldable pub list_by_classroom_and_day : Ctx → Table → ℕ → ℕ → Result (List (ℕ × Lesson))
list_by_classroom_and_day c table classroom_id day =
    query c "schedule.ListByClassroomAndDay" classroom_id (
      ok (
        sort_with by_start
          (keep (λ r. r.1.classroom_id == classroom_id && r.1.day_of_week == day) (rows table))))

unfoldable pub delete : Ctx → ℕ → Exec Table (Unit {0})
delete c id table =
    if c.fails "schedule.Delete" id
    then (err internal, table)
    else if is_some (get table id)
    then (ok tt, remove table id)
    else (err not_found, table)
