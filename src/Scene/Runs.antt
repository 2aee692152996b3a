-- ===== src/Scene/Runs.antt =====
-- What a run of a scene does: its steps in order, each on the devices as the one before left them.
use smartclass.Prelude.{
  ℕ, zero, suc, ◌+◌, ◌≤◌, ◌<◌, Bool, true, false, none, List, [], ◌∷◌, inl, inr, ◌≡◌, ◌↔◌, refl, ap,
  ◌∙◌, arith, All, length, Bool-cases,
}
use smartclass.Prelude.Sort.{take}
use smartclass.Platform.Errors.{ok, is_ok, Result-cases}
use smartclass.Platform.Context.{Ctx}
use smartclass.User.{Principal}
use smartclass.Classroom.Repository.{Db}
use smartclass.Classroom.Service.{authorize}
use smartclass.Device.Drivers.{Factory}
use smartclass.Device.Service.{Site, execute}
use smartclass.Device.Registry.{IsRegistry, execute-IsRegistry}
use smartclass.Scene.Repository
use smartclass.Scene.Repository.{Scene, Step}
use smartclass.Scene.Service.{
  StepResult, Ran, find, get_scene, run_step, run_steps, first_error, run,
}

-- The steps that have a result, and whether each succeeded.
abbrev pub steps_of : List StepResult → List Step
steps_of [] = []
steps_of (r ∷ rs) = r.step ∷ steps_of rs

abbrev pub verdicts_of : List StepResult → List Bool
verdicts_of [] = []
verdicts_of (r ∷ rs) = r.success ∷ verdicts_of rs

module _ (c : Ctx) (db : Db) (f : Factory) (p : Principal) where
  -- One command, as a request to the service of devices.
  abbrev pub command : Step → Site → Bool × Site
  command s site =
      let r = execute c db f p s.device_id (record { kind = s.command; value = s.value }) site in
      (is_ok r.0, r.1)

  -- The commands in order: the devices afterwards, and which commands succeeded.
  abbrev pub after : List Step → Site → Site
  after [] site = site
  after (s ∷ ss) site = after ss (command s site).1

  abbrev pub verdicts : List Step → Site → List Bool
  verdicts [] site = []
  verdicts (s ∷ ss) site = (command s site).0 ∷ verdicts ss (command s site).1

  pub run_steps_lem :
      (cancelled : ℕ → Bool) (i : ℕ) (ss : List Step) (site : Site)
      → let r = run_steps c db f p cancelled i ss site in
        let done = take (length r.0) ss in
        (steps_of r.0 ≡ done)
        × (verdicts_of r.0 ≡ verdicts done site)
        × (r.1 ≡ after done site)
        × (((k : ℕ) → cancelled k ≡ false) → length r.0 ≡ length ss)
  unfolding run_steps run_step
  run_steps_lem cancelled i [] site = (refl, refl, refl, λ on. refl)
  run_steps_lem cancelled i (s ∷ ss) site = elim (Bool-cases (cancelled i)) [
    | inl stop ↦ rw stop (refl, refl, refl, λ on. absurd (cc (stop, on i)))
    | inr go ↦
        let (steps, oks, site', all) =
          run_steps_lem cancelled (i + 1) ss (run_step c db f p s site).1 in
        rw go (cc steps, cc oks, site', λ on. cc (all on))
  ]

  -- A cancellation that is seen after a step lets no later step run.
  run_steps_stop :
      (cancelled : ℕ → Bool) (i : ℕ) (ss : List Step) (site : Site) (k : ℕ)
      → cancelled (i + k) ≡ true
      → length (run_steps c db f p cancelled i ss site).0 ≤ k + 1
  unfolding run_steps run_step
  run_steps_stop cancelled i [] site k stop = omega arith
  run_steps_stop cancelled i (s ∷ ss) site zero stop =
      let now : cancelled i ≡ true = ap cancelled (omega arith) ∙ stop in rw now (omega arith)
  run_steps_stop cancelled i (s ∷ ss) site (suc k) stop =
      let rest =
        run_steps_stop cancelled (i + 1) ss (run_step c db f p s site).1 k
          (ap cancelled (omega arith) ∙ stop) in
      elim (Bool-cases (cancelled i)) [
        | inl now ↦ rw now (omega arith)
        | inr go ↦ rw go (omega (arith, rest))
      ]

  -- A step that no cancellation precedes runs.
  run_steps_go :
      (cancelled : ℕ → Bool) (i : ℕ) (ss : List Step) (site : Site) (k : ℕ)
      → k < length ss
      → ((j : ℕ) → j < k → cancelled (i + j) ≡ false)
      → k < length (run_steps c db f p cancelled i ss site).0
  unfolding run_steps run_step
  run_steps_go cancelled i [] site k there go = absurd (omega arith)
  run_steps_go cancelled i (s ∷ ss) site zero there go = elim (Bool-cases (cancelled i)) [
    | inl stop ↦ rw stop (omega arith)
    | inr on ↦ rw on (omega arith)
  ]
  run_steps_go cancelled i (s ∷ ss) site (suc k) there go =
      let rest =
        run_steps_go cancelled (i + 1) ss (run_step c db f p s site).1 k (omega arith)
          (λ j h. ap cancelled (omega arith) ∙ go (suc j) (omega arith)) in
      let on : cancelled i ≡ false = ap cancelled (omega arith) ∙ go 0 (omega arith) in
      rw on (omega (arith, rest))

  pub run_steps-IsRegistry :
      (cancelled : ℕ → Bool) (i : ℕ) (ss : List Step) (site : Site)
      → IsRegistry f site
      → IsRegistry f (run_steps c db f p cancelled i ss site).1
  unfolding run_steps run_step
  run_steps-IsRegistry cancelled i [] site h = h
  run_steps-IsRegistry cancelled i (s ∷ ss) site h =
      let next =
        execute-IsRegistry c db f p s.device_id (record { kind = s.command; value = s.value }) site
          h in
      elim (Bool-cases (cancelled i)) [
        | inl stop ↦ rw stop next
        | inr go ↦
            rw go (run_steps-IsRegistry cancelled (i + 1) ss (run_step c db f p s site).1 next)
      ]

  first_error_iff :
      (cancelled : ℕ → Bool) (i : ℕ) (ss : List Step) (site : Site)
      → (first_error (run_steps c db f p cancelled i ss site).0 ≡ none)
        ↔ All (λ r. r.success ≡ true) (run_steps c db f p cancelled i ss site).0
  unfolding run_steps run_step first_error
  first_error_iff cancelled i [] site = (λ h. tt, λ h. refl)
  first_error_iff cancelled i (s ∷ ss) site =
      let rest = first_error_iff cancelled (i + 1) ss (run_step c db f p s site).1 in
      (λ h. ground (arith), λ h. ground (arith))

-- A run that starts belongs to a stored scene of a classroom that the principal may read. Its
-- results are those of a first part of the scene's steps, each command run on the devices as the
-- commands before left them, also after a command has failed. The part ends with the first step
-- after which the request is found cancelled: no later step runs, and every step does that no such
-- step precedes; while the request is not cancelled, the part is the whole scene.
pub run_in_order :
    (c : Ctx) (db : Db) (f : Factory) (p : Principal) (cancelled : ℕ → Bool)
    (table : Repository.Table) (id : ℕ) (site : Site) (ran : Ran)
    → (run c db f p cancelled table id site).0 ≡ ok ran
    → (s : Scene) × (find c table id ≡ ok s)
      × (authorize c db p s.classroom_id false ≡ ok tt)
      × (steps_of ran.result.steps ≡ take (length ran.result.steps) s.steps)
      × (verdicts_of ran.result.steps
          ≡ verdicts c db f p (take (length ran.result.steps) s.steps) site)
      × ((run c db f p cancelled table id site).1
          ≡ after c db f p (take (length ran.result.steps) s.steps) site)
      × (((k : ℕ) → cancelled k ≡ false) → length ran.result.steps ≡ length s.steps)
      × ((k : ℕ) → cancelled k ≡ true → length ran.result.steps ≤ k + 1)
      × ((k : ℕ)
          → k < length s.steps
          → ((j : ℕ) → j < k → cancelled j ≡ false)
          → k < length ran.result.steps)
unfolding run get_scene
run_in_order c db f p cancelled table id site ran done = elim (Result-cases (find c table id)) [
  | inr (e, missing) ↦ absurd (ground arith)
  | inl (s, found) ↦
      let allowed : authorize c db p s.classroom_id false ≡ ok tt = ground arith in
      let results : ran.result.steps ≡ (run_steps c db f p cancelled 0 s.steps site).0 =
        ground arith in
      let left : (run c db f p cancelled table id site).1
          ≡ (run_steps c db f p cancelled 0 s.steps site).1 =
        ground arith in
      let (steps, oks, sites, all) = run_steps_lem c db f p cancelled 0 s.steps site in
      (
        s,
        found,
        allowed,
        rw results steps,
        rw results oks,
        rw (left, results) sites,
        rw results all,
        λ k stop.
            let most =
              run_steps_stop c db f p cancelled 0 s.steps site k
                (ap cancelled (omega arith) ∙ stop) in
            rw results most,
        λ k there go.
            let least =
              run_steps_go c db f p cancelled 0 s.steps site k there
                (λ j h. ap cancelled (omega arith) ∙ go j h) in
            rw results least,
      )
]

-- Run returns ErrStepFailed exactly if some command failed.
pub run_failure_iff :
    (c : Ctx) (db : Db) (f : Factory) (p : Principal) (cancelled : ℕ → Bool)
    (table : Repository.Table) (id : ℕ) (site : Site) (ran : Ran)
    → (run c db f p cancelled table id site).0 ≡ ok ran
    → (ran.failure ≡ none) ↔ All (λ r. r.success ≡ true) ran.result.steps
unfolding run get_scene
run_failure_iff c db f p cancelled table id site ran done = elim (Result-cases (find c table id)) [
  | inr (e, missing) ↦ absurd (ground arith)
  | inl (s, found) ↦
      let results : ran.result.steps ≡ (run_steps c db f p cancelled 0 s.steps site).0 =
        ground arith in
      let failure : ran.failure ≡ first_error (run_steps c db f p cancelled 0 s.steps site).0 =
        ground arith in
      rw (results, failure) (first_error_iff c db f p cancelled 0 s.steps site)
]

-- A run, however it ends, keeps devices stored under their ids and run by registered drivers.
pub run-IsRegistry :
    (c : Ctx) (db : Db) (f : Factory) (p : Principal) (cancelled : ℕ → Bool)
    (table : Repository.Table) (id : ℕ) (site : Site)
    → IsRegistry f site
    → IsRegistry f (run c db f p cancelled table id site).1
unfolding run
run-IsRegistry c db f p cancelled table id site h =
    elim (Result-cases (get_scene c db p id false table).0) [
      | inr (e, refused) ↦ rw refused h
      | inl (s, found) ↦ rw found (run_steps-IsRegistry c db f p cancelled 0 s.steps site h)
    ]
