-- ===== src/Device/Examples.antt =====
-- A classroom with one lamp, whose driver answers ON, does not support OPEN and fails otherwise.
use smartclass.Prelude.{
  ℕ, ◌+◌, String, true, false, none, some, [], ◌∷◌, ◌≡◌, refl, ap, ◌==◌, nat_eq, pair_eq, string_eq,
  arith, if◌then◌else◌,
}
use smartclass.Prelude.Dict.{empty, get, put, get-put, get-empty}
use smartclass.Prelude.Text.{text}
use smartclass.Platform.Errors.{
  Result, ok, err, internal, is_ok, unsupported_command, command_failed,
}
use smartclass.Platform.Context.{Ctx}
use smartclass.User.{Principal, role_teacher}
use smartclass.Classroom.Repository.{Db, is_member}
use smartclass.Classroom.Repository as Rooms
use smartclass.Classroom.Service.{authorize, authorize_classroom}
use smartclass.Classroom.Service as Classrooms
use smartclass.Device.Drivers.{Command, Driver, Factory, Outcome, Target, command_valid, driver_for}
use smartclass.Device.Repository
use smartclass.Device.Repository.{Device, update_state}
use smartclass.Device.Service.{Site, conclude, answered, find, get_device, differ, execute}
use smartclass.Device.Requests
use smartclass.Device.Requests.{Request, perform}
use smartclass.Device.Registry.{IsRegistry}
use smartclass.Device.Commands.{execute_ok, execute_failed, target_of, after_answer, change_of}

abbrev pub calm : Ctx
calm = record { now = 100; fresh = λ n. n + 50; fails = λ op id. false }

abbrev pub school : Db
school = record {
  classrooms = put empty 1 (record {
    id = 1;
    name = text "101";
    description = [];
    created_by = 10;
    created_at = 5;
    updated_at = 5;
  });
  members = put empty (1, 10) 5;
}

abbrev pub teacher : Principal
teacher = record { user_id = 10; role = role_teacher }

abbrev answers : Target → Command → Result Outcome
answers t cmd =
    if cmd.kind == "ON"
    then ok (record { status = "on"; online = true; last_seen = 99 })
    else if cmd.kind == "OPEN"
    then err unsupported_command
    else err internal

abbrev pub bulbs : Driver
bulbs = record { name = "mqtt"; execute = answers }

abbrev pub drivers : Factory
drivers = put empty "mqtt" bulbs

abbrev pub lamp : Device
lamp = record {
  id = 4;
  classroom_id = 1;
  name = "Lamp";
  type = "light";
  brand = "Aqara";
  driver = "mqtt";
  config = some (text "{}");
  status = "off";
  online = false;
  last_seen_at = none;
  created_at = 5;
  updated_at = 5;
}

abbrev pub lab : Site
lab = record { devices = put empty 4 lamp; events = []; changes = []; actions = [] }

lamp_driven : driver_for drivers lamp.driver ≡ ok bulbs
unfolding driver_for get put empty
lamp_driven = refl

lamp_stored : get lab.devices 4 ≡ some lamp
unfolding get put empty
lamp_stored = refl

lamp_only : (id : ℕ) (d : Device) → get lab.devices id ≡ some d → (id ≡ 4) × (d ≡ lamp)
lamp_only id d found = (grind (arith, get-put, get-empty), grind (arith, get-put, get-empty))

pub lab-IsRegistry : IsRegistry drivers lab
lab-IsRegistry = record {
  keyed = λ id d found. let (at, own) = lamp_only id d found in cc (at, own);
  driven = λ id d found.
      let (at, own) = lamp_only id d found in
      let same : driver_for drivers d.driver ≡ ok bulbs = rw own lamp_driven in ap is_ok same;
}

abbrev turn : String → Command
turn kind = record { kind = kind; value = [] }

execute_run :
    (execute calm school drivers teacher 4 (turn "ON") lab).0
    ≡ ok (after_answer lamp (record { status = "on"; online = true; last_seen = 99 }))
unfolding execute command_valid get_device find Repository.get_by_id authorize authorize_classroom
    Classrooms.find Rooms.get_by_id is_member driver_for conclude answered update_state get put
    empty
execute_run = refl

abbrev lit : Device
lit = after_answer lamp (record { status = "on"; online = true; last_seen = 99 })

execute_ok_example :
    (d : Device) × (driver : Driver) × (res : Outcome) × (get lab.devices 4 ≡ some d)
    × (command_valid "ON" ≡ true)
    × (authorize calm school teacher d.classroom_id false ≡ ok tt)
    × (driver_for drivers d.driver ≡ ok driver)
    × (driver.execute (target_of d) (turn "ON") ≡ ok res)
    × (lit ≡ after_answer d res)
    × (get (execute calm school drivers teacher 4 (turn "ON") lab).1.devices 4
        ≡ some (record (after_answer d res) { updated_at = 100 }))
    × ((execute calm school drivers teacher 4 (turn "ON") lab).1.events
        ≡ record { type = "device.state_changed"; device = lit } ∷ [])
    × ((execute calm school drivers teacher 4 (turn "ON") lab).1.changes
        ≡ (if differ d.online res.online then change_of lit ∷ [] else []))
execute_ok_example =
    execute_ok calm school drivers teacher 4 (turn "ON") lab lit lab-IsRegistry execute_run

readable : authorize calm school teacher 1 false ≡ ok tt
unfolding authorize authorize_classroom Classrooms.find Rooms.get_by_id is_member get put empty
readable = refl

off_valid : command_valid "OFF" ≡ true
unfolding command_valid
off_valid = refl

execute_failed_example :
    ((execute calm school drivers teacher 4 (turn "OFF") lab).0 ≡ err command_failed)
    × (get (execute calm school drivers teacher 4 (turn "OFF") lab).1.devices 4
        ≡ some (record lamp { online = false; updated_at = 100 }))
    × ((execute calm school drivers teacher 4 (turn "OFF") lab).1.events
        ≡ record { type = "device.unavailable"; device = record lamp { online = false } } ∷ [])
    × ((execute calm school drivers teacher 4 (turn "OFF") lab).1.changes
        ≡ (if lamp.online then change_of (record lamp { online = false }) ∷ [] else []))
execute_failed_example =
    execute_failed calm school drivers teacher 4 (turn "OFF") lab lamp bulbs internal lab-IsRegistry
      lamp_stored off_valid readable lamp_driven refl refl (λ op id. refl)

open_run :
    (perform calm school drivers teacher (Requests.execute 4 (turn "OPEN")) lab).0
    ≡ err unsupported_command
unfolding perform execute command_valid get_device find Repository.get_by_id authorize
    authorize_classroom Classrooms.find Rooms.get_by_id is_member driver_for conclude get put empty
open_run = refl
