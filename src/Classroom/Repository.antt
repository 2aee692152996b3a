-- ===== src/Classroom/Repository.antt =====
-- classroom.go and postgres.go of backend/internal/classroom.
-- The tables are `classrooms`, by id, and `classroom_users`, by the pair of classroom and user
-- (migrations/00002_classrooms.sql). A statement that fails in the driver changes nothing; the
-- transaction of `create` is one such statement.
use smartclass.Prelude.{
  ℕ, Bool, true, false, not, ◌||◌, Option, none, some, List, map, ◌==◌, nat_eq, pair_eq, keep,
  if◌then◌else◌, leb,
}
use smartclass.Prelude.Dict.{Dict, get, put, remove, remove_where, rows}
use smartclass.Prelude.Sort.{sort_with, page}
use smartclass.Prelude.Text.{Text}
use smartclass.Platform.Errors.{Result, ok, err, not_found, internal}
use smartclass.Platform.Exec.{Exec}
use smartclass.Platform.Context.{Ctx, query}

pub record Classroom : Type 0 where
  pub id : ℕ
  pub name : Text
  pub description : Text
  pub created_by : ℕ
  pub created_at : ℕ
  pub updated_at : ℕ

pub record Db : Type 0 where
  pub classrooms : Dict ℕ Classroom
  pub members : Dict (ℕ × ℕ) ℕ  -- assigned_at, by classroom and user

abbrev pub has_row {ℓ} : {A : Type ℓ} → Option A → Bool
has_row none = false
has_row (some a) = true

-- INSERT … ON CONFLICT DO NOTHING
unfoldable pub insert_member : Ctx → Dict (ℕ × ℕ) ℕ → ℕ → ℕ → Dict (ℕ × ℕ) ℕ
insert_member c m classroom_id user_id =
    if has_row (get m (classroom_id, user_id)) then m else put m (classroom_id, user_id) c.now

-- `c.ID` is not uuid.Nil here: the service sets it.
unfoldable pub create : Ctx → Classroom → Exec Db Classroom
unfolding insert_member
create c cl db =
    let row = record cl { created_at = c.now; updated_at = c.now } in
    if c.fails "classroom.Create" cl.id || has_row (get db.classrooms cl.id)
    then (err internal, db)
    else (
      ok row,
      record {
        classrooms = put db.classrooms cl.id row;
        members = insert_member c db.members cl.id cl.created_by;
      },
    )

abbrev row_or_missing {ℓ} : {A : Type ℓ} → Option A → Result A
row_or_missing none = err not_found
row_or_missing (some a) = ok a

unfoldable pub get_by_id : Ctx → Db → ℕ → Result Classroom
get_by_id c db id = query c "classroom.GetByID" id (row_or_missing (get db.classrooms id))

-- ORDER BY created_at DESC
abbrev pub newest_first : ℕ × Classroom → ℕ × Classroom → Bool
newest_first a b = leb b.1.created_at a.1.created_at

-- SELECT … ORDER BY created_at DESC LIMIT … OFFSET …
unfoldable pub list_all : Ctx → Db → ℕ → ℕ → Result (List (ℕ × Classroom))
list_all c db limit offset =
    query c "classroom.List" 0
      (ok (page limit offset (sort_with newest_first (rows db.classrooms))))

-- The join keeps the classrooms for which the user has a membership row.
unfoldable pub list_for_user : Ctx → Db → ℕ → ℕ → ℕ → Result (List (ℕ × Classroom))
list_for_user c db user_id limit offset =
    let joined = keep (λ r. has_row (get db.members (r.0, user_id))) (rows db.classrooms) in
    query c "classroom.ListForUser" user_id (ok (page limit offset (sort_with newest_first joined)))

-- UPDATE … WHERE id=$1: neither the creator nor the creation time is written.
unfoldable pub update : Ctx → Classroom → Exec Db Classroom
update c cl db =
    if c.fails "classroom.Update" cl.id
    then (err internal, db)
    else elim (get db.classrooms cl.id) [
      | none ↦ (err not_found, db)
      | some old ↦ (
        ok (record cl { updated_at = c.now }),
        record db {
          classrooms =
              put db.classrooms cl.id
                (record old { name = cl.name; description = cl.description; updated_at = c.now });
        },
      )
    ]

-- DELETE … WHERE id=$1; the membership rows go with it (ON DELETE CASCADE).
unfoldable pub delete : Ctx → ℕ → Exec Db (Unit {0})
delete c id db =
    if c.fails "classroom.Delete" id
    then (err internal, db)
    else if has_row (get db.classrooms id)
    then (
      ok tt,
      record {
        classrooms = remove db.classrooms id;
        members = remove_where (λ k v. k.0 == id) db.members;
      },
    )
    else (err not_found, db)

-- The foreign key wants the classroom's row; that of the user is among the failures `fails`.
unfoldable pub assign : Ctx → ℕ → ℕ → Exec Db (Unit {0})
unfolding insert_member
assign c classroom_id user_id db =
    if c.fails "classroom.Assign" classroom_id || not (has_row (get db.classrooms classroom_id))
    then (err internal, db)
    else (ok tt, record db { members = insert_member c db.members classroom_id user_id })

unfoldable pub unassign : Ctx → ℕ → ℕ → Exec Db (Unit {0})
unassign c classroom_id user_id db =
    if c.fails "classroom.Unassign" classroom_id
    then (err internal, db)
    else (ok tt, record db { members = remove db.members (classroom_id, user_id) })

-- SELECT EXISTS(…)
unfoldable pub is_member : Ctx → Db → ℕ → ℕ → Result Bool
is_member c db classroom_id user_id =
    query c "classroom.IsMember" classroom_id
      (ok (has_row (get db.members (classroom_id, user_id))))

-- ORDER BY assigned_at
abbrev pub oldest_first : (ℕ × ℕ) × ℕ → (ℕ × ℕ) × ℕ → Bool
oldest_first a b = leb a.1 b.1

unfoldable pub members_of : Ctx → Db → ℕ → Result (List ℕ)
members_of c db classroom_id =
    let mine = keep (λ r. r.0.0 == classroom_id) (rows db.members) in
    query c "classroom.Members" classroom_id (ok (map (λ r. r.0.1) (sort_with oldest_first mine)))
