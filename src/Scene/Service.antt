-- ===== src/Scene/Service.antt =====
-- service.go of backend/internal/scene. Run executes the steps one after another through the
-- service of devices; `cancelled i` says whether the request's context has ended after step i.
use smartclass.Prelude.{
  ℕ, ◌+◌, String, Bool, true, false, Option, none, some, List, [], ◌∷◌, if◌then◌else◌,
}
use smartclass.Platform.Errors.{Error, Result, ok, err, not_found_as, scene_not_found, is_ok}
use smartclass.Platform.Exec.{Exec, next, mapping, read, lift, pure, ◌>>=◌}
use smartclass.Platform.Context.{Ctx}
use smartclass.User.{Principal}
use smartclass.Classroom.Repository.{Db}
use smartclass.Classroom.Service.{authorize}
use smartclass.Device.Drivers.{Factory}
use smartclass.Device.Service.{Site, execute}
use smartclass.Scene.Repository
use smartclass.Scene.Repository.{Scene, Step}

pub record CreateInput : Type 0 where
  pub classroom_id : ℕ
  pub name : String
  pub description : String
  pub steps : List Step

unfoldable pub create : Ctx → Db → Principal → CreateInput → Exec Repository.Table Scene
create c db p input = lift (authorize c db p input.classroom_id true) >>= λ _.
    Repository.create c (record {
      id = c.fresh 0;
      classroom_id = input.classroom_id;
      name = input.name;
      description = input.description;
      steps = input.steps;
      created_at = 0;
      updated_at = 0;
    })

-- Service.load
unfoldable pub find : Ctx → Repository.Table → ℕ → Result Scene
find c table id = not_found_as scene_not_found (Repository.get_by_id c table id)

-- Service.Get; load and Authorize begin the other methods in the same way
unfoldable pub get_scene : Ctx → Db → Principal → ℕ → Bool → Exec Repository.Table Scene
get_scene c db p id mutate = read (λ table. find c table id) >>= λ s.
    lift (authorize c db p s.classroom_id mutate) >>= λ _. pure s

unfoldable pub list_by_classroom :
    Ctx → Db → Principal → ℕ → Exec Repository.Table (List (ℕ × Scene))
list_by_classroom c db p classroom_id = lift (authorize c db p classroom_id false) >>= λ _.
    read (λ table. Repository.list_by_classroom c table classroom_id)

pub record UpdateInput : Type 0 where
  pub name : Option String
  pub description : Option String
  pub steps : Option (List Step)

abbrev or_keep {ℓ} : {A : Type ℓ} → Option A → A → A
or_keep none old = old
or_keep (some new) old = new

abbrev pub edited : UpdateInput → Scene → Scene
edited input s = record s {
  name = or_keep input.name s.name;
  description = or_keep input.description s.description;
  steps = or_keep input.steps s.steps;
}

unfoldable pub update : Ctx → Db → Principal → ℕ → UpdateInput → Exec Repository.Table Scene
update c db p id input = get_scene c db p id true >>= λ s.
    mapping (not_found_as scene_not_found) (Repository.update c (edited input s))

unfoldable pub delete : Ctx → Db → Principal → ℕ → Exec Repository.Table (Unit {0})
delete c db p id = get_scene c db p id true >>= λ s. Repository.delete c id

-- The field Success is `is_ok`, the field Error the error's text.
pub record StepResult : Type 0 where
  pub step : Step
  pub success : Bool
  pub error : Option Error

abbrev pub step_error {ℓ} : {A : Type ℓ} → Result A → Option Error
step_error (ok a) = none
step_error (err e) = some e

unfoldable pub run_step : Ctx → Db → Factory → Principal → Step → Site → StepResult × Site
run_step c db f p s site =
    let r = execute c db f p s.device_id (record { kind = s.command; value = s.value }) site in
    (record { step = s; success = is_ok r.0; error = step_error r.0 }, r.1)

unfoldable pub run_steps :
    Ctx → Db → Factory → Principal → (ℕ → Bool) → ℕ → List Step → Site → List StepResult × Site
run_steps c db f p cancelled i [] site = ([], site)
run_steps c db f p cancelled i (s ∷ ss) site =
    let r = run_step c db f p s site in
    let rest = run_steps c db f p cancelled (i + 1) ss r.1 in
    if cancelled i then (r.0 ∷ [], r.1) else (r.0 ∷ rest.0, rest.1)

-- `firstErr`
unfoldable pub first_error : List StepResult → Option Error
first_error [] = none
first_error (r ∷ rs) = elim r.error [ none ↦ first_error rs | some e ↦ some e ]

pub record RunResult : Type 0 where
  pub scene_id : ℕ
  pub steps : List StepResult

-- What Run returns with its result: ErrStepFailed, wrapping the first error, or nil. The event
-- `scene.ran` carries the same results.
pub record Ran : Type 0 where
  pub result : RunResult
  pub failure : Option Error

unfoldable pub run :
    Ctx → Db → Factory → Principal → (ℕ → Bool) → Repository.Table → ℕ → Exec Site Ran
run c db f p cancelled table id site = next (get_scene c db p id false table).0 site (λ s site.
    let r = run_steps c db f p cancelled 0 s.steps site in
    (
      ok (record { result = record { scene_id = s.id; steps = r.0 }; failure = first_error r.0 }),
      r.1,
    ))
