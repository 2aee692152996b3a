-- ===== src/Classroom/Service.antt =====
-- service.go of backend/internal/classroom. Each method takes the request's context and the
-- principal; those that write are steps on the tables.
use smartclass.Prelude.{
  ℕ, Bool, true, false, not, ◌&&◌, ◌||◌, Option, none, some, List, ◌==◌, nat_eq, string_eq, ltb,
  if◌then◌else◌,
}
use smartclass.Prelude.Int.{ℤ, pos, negsuc}
use smartclass.Prelude.Text.{Text, trim_space}
use smartclass.Platform.Errors.{
  Result, ok, not_found_as, reject_if, classroom_not_found, classroom_forbidden, ◌>>=◌, ◌>>◌,
}
use smartclass.Platform.Exec
use smartclass.Platform.Exec.{Exec, mapping, read}
use smartclass.Platform.Context.{Ctx}
use smartclass.User.{Principal, role_admin}
use smartclass.Classroom.Repository
use smartclass.Classroom.Repository.{
  Classroom, Db, get_by_id, list_all, list_for_user, is_member, members_of,
}

pub record CreateInput : Type 0 where
  pub name : Text
  pub description : Text
  pub created_by : ℕ

unfoldable pub create : Ctx → CreateInput → Exec Db Classroom
unfolding Repository.create
create c input = Repository.create c (record {
  id = c.fresh 0;
  name = trim_space input.name;
  description = input.description;
  created_by = input.created_by;
  created_at = 0;
  updated_at = 0;
})

-- Service.Get
unfoldable pub find : Ctx → Db → ℕ → Result Classroom
unfolding get_by_id
find c db id = not_found_as classroom_not_found (get_by_id c db id)

unfoldable pub authorize_classroom : Ctx → Db → Principal → ℕ → Bool → Result Classroom
unfolding find is_member
authorize_classroom c db p classroom_id mutate = do
  cl ← find c db classroom_id
  if p.role == role_admin then ok cl else do
    reject_if (mutate && not (cl.created_by == p.user_id)) classroom_forbidden
    member ← is_member c db classroom_id p.user_id
    reject_if (not member && not (cl.created_by == p.user_id)) classroom_forbidden
    ok cl

-- Service.Authorize, which the other packages call
unfoldable pub authorize : Ctx → Db → Principal → ℕ → Bool → Result (Unit {0})
unfolding authorize_classroom
authorize c db p classroom_id mutate = do cl ← authorize_classroom c db p classroom_id mutate; ok tt

-- `if limit <= 0 || limit > 200 { limit = 50 }`
unfoldable pub clamp_limit : ℤ → ℕ
clamp_limit (pos n) = if n == 0 || ltb 200 n then 50 else n
clamp_limit (negsuc n) = 50

-- `if offset < 0 { offset = 0 }`
unfoldable pub clamp_offset : ℤ → ℕ
clamp_offset (pos n) = n
clamp_offset (negsuc n) = 0

unfoldable pub list_for_principal : Ctx → Db → Principal → ℤ → ℤ → Result (List (ℕ × Classroom))
unfolding clamp_limit clamp_offset list_all list_for_user
list_for_principal c db p limit offset =
    if p.role == role_admin
    then list_all c db (clamp_limit limit) (clamp_offset offset)
    else list_for_user c db p.user_id (clamp_limit limit) (clamp_offset offset)

pub record UpdateInput : Type 0 where
  pub name : Option Text
  pub description : Option Text

-- `if in.F != nil { c.F = *in.F }`
abbrev or_keep : Option Text → Text → Text
or_keep none old = old
or_keep (some new) old = new

abbrev trimmed : Option Text → Option Text
trimmed none = none
trimmed (some t) = some (trim_space t)

unfoldable pub update : Ctx → Principal → ℕ → UpdateInput → Exec Db Classroom
unfolding authorize_classroom Repository.update
update c p id input = Exec.◌>>=◌ (read λ db. authorize_classroom c db p id true) λ cl.
    mapping (not_found_as classroom_not_found) (
      Repository.update c (record cl {
        name = or_keep (trimmed input.name) cl.name;
        description = or_keep input.description cl.description;
      }))

unfoldable pub delete : Ctx → Principal → ℕ → Exec Db (Unit {0})
unfolding authorize_classroom Repository.delete
delete c p id =
    Exec.◌>>=◌ (read λ db. authorize_classroom c db p id true)
      λ cl. mapping (not_found_as classroom_not_found) (Repository.delete c id)

unfoldable pub assign : Ctx → Principal → ℕ → ℕ → Exec Db (Unit {0})
unfolding authorize_classroom Repository.assign
assign c p classroom_id user_id =
    Exec.◌>>=◌ (read λ db. authorize_classroom c db p classroom_id true)
      λ cl. Repository.assign c classroom_id user_id

unfoldable pub unassign : Ctx → Principal → ℕ → ℕ → Exec Db (Unit {0})
unfolding authorize_classroom Repository.unassign
unassign c p classroom_id user_id =
    Exec.◌>>=◌ (read λ db. authorize_classroom c db p classroom_id true)
      λ cl. Repository.unassign c classroom_id user_id

unfoldable pub members : Ctx → Db → Principal → ℕ → Result (List ℕ)
unfolding authorize_classroom members_of
members c db p classroom_id = do
  cl ← authorize_classroom c db p classroom_id false
  members_of c db classroom_id
