-- ===== src/Scene/Examples.antt =====
-- A scene that turns the lamp on, sends it a command that it does not support, and turns it on again.
use smartclass.Prelude.{
  ℕ, ◌+◌, ◌≤◌, ◌<◌, ◌==◌, Bool, true, false, none, some, [], ◌∷◌, ◌≡◌, refl, length, nat_eq,
  pair_eq, string_eq,
}
use smartclass.Prelude.Dict.{empty, get, put}
use smartclass.Prelude.Sort.{take}
use smartclass.Platform.Errors.{ok, unsupported_command}
use smartclass.Classroom.Repository as Rooms
use smartclass.Classroom.Service as Classrooms
use smartclass.Classroom.Service.{authorize, authorize_classroom}
use smartclass.Device.Drivers.{command_valid, driver_for}
use smartclass.Device.Repository as Devices
use smartclass.Device.Service as DeviceService
use smartclass.Device.Examples.{calm, school, teacher, drivers, lab}
use smartclass.Scene.Repository
use smartclass.Scene.Repository.{Scene, Step}
use smartclass.Scene.Service.{Ran, find, get_scene, run_step, run_steps, first_error, run}
use smartclass.Scene.Runs.{steps_of, verdicts_of, verdicts, after, run_in_order}

abbrev lamp_step : Step
lamp_step = record { device_id = 4; command = "ON"; value = [] }

abbrev open_step : Step
open_step = record { device_id = 4; command = "OPEN"; value = [] }

abbrev lesson_start : Scene
lesson_start = record {
  id = 8;
  classroom_id = 1;
  name = "Start";
  description = "";
  steps = lamp_step ∷ open_step ∷ lamp_step ∷ [];
  created_at = 5;
  updated_at = 5;
}

abbrev scenes : Repository.Table
scenes = put empty 8 lesson_start

-- The request is found cancelled after the second step.
abbrev stops : ℕ → Bool
stops i = i == 1

abbrev two_results : Ran
two_results = record {
  result = record {
    scene_id = 8;
    steps =
        record { step = lamp_step; success = true; error = none }
        ∷ record { step = open_step; success = false; error = some unsupported_command }
        ∷ [];
  };
  failure = some unsupported_command;
}

run_result : (run calm school drivers teacher stops scenes 8 lab).0 ≡ ok two_results
unfolding run get_scene find Repository.get_by_id run_steps run_step first_error
    DeviceService.execute command_valid DeviceService.get_device DeviceService.find
    Devices.get_by_id authorize authorize_classroom Classrooms.find Rooms.get_by_id Rooms.is_member
    driver_for DeviceService.conclude DeviceService.answered Devices.update_state get put empty
run_result = refl

run_in_order_example :
    (s : Scene) × (find calm scenes 8 ≡ ok s)
    × (authorize calm school teacher s.classroom_id false ≡ ok tt)
    × (steps_of two_results.result.steps ≡ take 2 s.steps)
    × (verdicts_of two_results.result.steps
        ≡ verdicts calm school drivers teacher (take 2 s.steps) lab)
    × ((run calm school drivers teacher stops scenes 8 lab).1
        ≡ after calm school drivers teacher (take 2 s.steps) lab)
    × (((k : ℕ) → stops k ≡ false) → 2 ≡ length s.steps)
    × ((k : ℕ) → stops k ≡ true → 2 ≤ k + 1)
    × ((k : ℕ) → k < length s.steps → ((j : ℕ) → j < k → stops j ≡ false) → k < 2)
run_in_order_example =
    run_in_order calm school drivers teacher stops scenes 8 lab two_results run_result
