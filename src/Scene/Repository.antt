-- ===== src/Scene/Repository.antt =====
-- scene.go and postgres.go of backend/internal/scene, over the table `scenes`
-- (migrations/00005_scenes.sql). The steps are stored as JSON and read back as they were.
use smartclass.Prelude.{ℕ, String, Option, none, some, List, ◌==◌, nat_eq, if◌then◌else◌, leb, keep}
use smartclass.Prelude.Dict.{Dict, get, put, remove, rows}
use smartclass.Prelude.Sort.{sort_with}
use smartclass.Prelude.Text.{Text}
use smartclass.Platform.Errors.{Result, ok, err, not_found, internal}
use smartclass.Platform.Exec.{Exec}
use smartclass.Platform.Context.{Ctx, query}

pub record Step : Type 0 where
  pub device_id : ℕ
  pub command : String
  pub value : Text

pub record Scene : Type 0 where
  pub id : ℕ
  pub classroom_id : ℕ
  pub name : String
  pub description : String
  pub steps : List Step
  pub created_at : ℕ
  pub updated_at : ℕ

abbrev pub Table : Type 0
Table = Dict ℕ Scene

-- INSERT: a second row for one id breaks the primary key.
unfoldable pub create : Ctx → Scene → Exec Table Scene
create c s table =
    let row = record s { created_at = c.now; updated_at = c.now } in
    if c.fails "scene.Create" s.id then (err internal, table) else elim (get table s.id) [
      | some old ↦ (err internal, table)
      | none ↦ (ok row, put table s.id row)
    ]

abbrev row_or_missing : Option Scene → Result Scene
row_or_missing none = err not_found
row_or_missing (some s) = ok s

unfoldable pub get_by_id : Ctx → Table → ℕ → Result Scene
get_by_id c table id = query c "scene.GetByID" id (row_or_missing (get table id))

unfoldable pub list_by_classroom : Ctx → Table → ℕ → Result (List (ℕ × Scene))
list_by_classroom c table classroom_id = query c "scene.ListByClassroom" classroom_id (
    ok (
      sort_with (λ a b. leb b.1.created_at a.1.created_at)
        (keep (λ r. r.1.classroom_id == classroom_id) (rows table))))

-- UPDATE scenes SET name, description, steps, updated_at
unfoldable pub update : Ctx → Scene → Exec Table Scene
update c s table =
    if c.fails "scene.Update" s.id then (err internal, table) else elim (get table s.id) [
      | none ↦ (err not_found, table)
      | some old ↦ (
        ok (record s { updated_at = c.now }),
        put table s.id (record old {
          name = s.name;
          description = s.description;
          steps = s.steps;
          updated_at = c.now;
        }),
      )
    ]

unfoldable pub delete : Ctx → ℕ → Exec Table (Unit {0})
delete c id table =
    if c.fails "scene.Delete" id
    then (err internal, table)
    else elim (get table id) [ none ↦ (err not_found, table) | some old ↦ (ok tt, remove table id) ]
