-- ===== src/Device/Commands.antt =====
-- What a command does to a device, and what others hear of it.
use smartclass.Prelude.{
  ℕ, String, true, false, some, ◌∷◌, inl, inr, ◌≡◌, refl, nat_eq, string_eq, arith, Option-cases,
  if◌then◌else◌,
}
use smartclass.Prelude.Dict.{get, get-put}
use smartclass.Platform.Errors.{Error, ok, err, command_failed, Result-cases}
use smartclass.Platform.Context.{Ctx}
use smartclass.User.{Principal}
use smartclass.Classroom.Repository.{Db}
use smartclass.Classroom.Service.{authorize}
use smartclass.Device.Drivers.{Command, Driver, Factory, Outcome, Target, command_valid, driver_for}
use smartclass.Device.Repository
use smartclass.Device.Repository.{Device, update_state}
use smartclass.Device.Service.{
  Site, Change, find, get_device, unavailable, answered, conclude, execute, is_unsupported, differ,
}
use smartclass.Device.Registry.{IsRegistry}

abbrev pub target_of : Device → Target
target_of d = record { id = d.id; brand = d.brand; config = d.config }

abbrev pub after_answer : Device → Outcome → Device
after_answer d res = record d {
  status = res.status;
  online = res.online;
  last_seen_at = some res.last_seen;
}

abbrev pub change_of : Device → Change
change_of d = record {
  classroom_id = d.classroom_id;
  device_id = d.id;
  name = d.name;
  online = d.online;
  status = d.status;
}

answered_ok :
    (c : Ctx) (p : Principal) (d new : Device) (res : Outcome) (site : Site)
    → get site.devices d.id ≡ some d
    → (answered c p d res site).0 ≡ ok new
    → (new ≡ after_answer d res)
      × (get (answered c p d res site).1.devices d.id
          ≡ some (record (after_answer d res) { updated_at = c.now }))
      × ((answered c p d res site).1.events
          ≡ record { type = "device.state_changed"; device = new } ∷ site.events)
      × ((answered c p d res site).1.changes
          ≡ (if differ d.online res.online then change_of new ∷ site.changes else site.changes))
unfolding answered update_state
answered_ok c p d new res site stored done =
    (ground arith, grind (arith, get-put), ground arith, ground arith)

unavailable_lem :
    (c : Ctx) (d : Device) (site : Site)
    → get site.devices d.id ≡ some d
    → c.fails "device.UpdateState" d.id ≡ false
    → ((unavailable c d site).0 ≡ err command_failed)
      × (get (unavailable c d site).1.devices d.id
          ≡ some (record d { online = false; updated_at = c.now }))
      × ((unavailable c d site).1.events
          ≡ record { type = "device.unavailable"; device = record d { online = false } }
            ∷ site.events)
      × ((unavailable c d site).1.changes ≡ (
          if d.online
          then change_of (record d { online = false }) ∷ site.changes
          else site.changes))
unfolding unavailable update_state
unavailable_lem c d site stored up = (refl, grind (arith, get-put), ground arith, ground arith)

-- A command that succeeds ran the driver of a stored device.
execute_runs :
    (c : Ctx) (db : Db) (f : Factory) (p : Principal) (id : ℕ) (cmd : Command) (site : Site)
    (new : Device)
    → (execute c db f p id cmd site).0 ≡ ok new
    → (d : Device) × (driver : Driver) × (res : Outcome) × (get site.devices id ≡ some d)
      × (command_valid cmd.kind ≡ true)
      × (authorize c db p d.classroom_id false ≡ ok tt)
      × (driver_for f d.driver ≡ ok driver)
      × (driver.execute (target_of d) cmd ≡ ok res)
      × (execute c db f p id cmd site ≡ answered c p d res site)
unfolding execute get_device find Repository.get_by_id conclude unavailable
execute_runs c db f p id cmd site new done = elim (Option-cases (get site.devices id)) [
  | inl missing ↦ absurd (ground arith)
  | inr (d, stored) ↦ elim (Result-cases (driver_for f d.driver)) [
    | inr (e, unknown) ↦ absurd (ground arith)
    | inl (driver, driven) ↦ elim (Result-cases (driver.execute (target_of d) cmd)) [
      | inr (e, failed) ↦ absurd (ground arith)
      | inl (res, answer) ↦
          (d, driver, res, stored, ground arith, ground arith, driven, answer, ground arith)
    ]
  ]
]

-- A command that succeeds was valid, sent by somebody who may read the classroom, to the driver of
-- a stored device, which answered it. The device takes the state of the answer in the table; one
-- event tells it; a change is reported exactly if the device came online or went offline.
pub execute_ok :
    (c : Ctx) (db : Db) (f : Factory) (p : Principal) (id : ℕ) (cmd : Command) (site : Site)
    (new : Device)
    → IsRegistry f site
    → (execute c db f p id cmd site).0 ≡ ok new
    → (d : Device) × (driver : Driver) × (res : Outcome) × (get site.devices id ≡ some d)
      × (command_valid cmd.kind ≡ true)
      × (authorize c db p d.classroom_id false ≡ ok tt)
      × (driver_for f d.driver ≡ ok driver)
      × (driver.execute (target_of d) cmd ≡ ok res)
      × (new ≡ after_answer d res)
      × (get (execute c db f p id cmd site).1.devices id
          ≡ some (record (after_answer d res) { updated_at = c.now }))
      × ((execute c db f p id cmd site).1.events
          ≡ record { type = "device.state_changed"; device = new } ∷ site.events)
      × ((execute c db f p id cmd site).1.changes
          ≡ (if differ d.online res.online then change_of new ∷ site.changes else site.changes))
execute_ok c db f p id cmd site new h done =
    let (d, driver, res, stored, valid, allowed, driven, answer, run) =
      execute_runs c db f p id cmd site new done in
    let key = h.keyed id d stored in
    let (same, kept, told, reported) =
      answered_ok c p d new res site (cc (stored, key)) (cc (done, run)) in
    (
      d,
      driver,
      res,
      stored,
      valid,
      allowed,
      driven,
      answer,
      same,
      cc (kept, run, key),
      cc (told, run),
      cc (reported, run),
    )

-- A driver that fails, for another reason than an unsupported command, takes the device offline
-- with the status it had: while the database answers, the table, the event and the report agree,
-- and the report is made exactly if the device had been online.
pub execute_failed :
    (c : Ctx) (db : Db) (f : Factory) (p : Principal) (id : ℕ) (cmd : Command) (site : Site)
    (d : Device) (driver : Driver) (e : Error)
    → IsRegistry f site
    → get site.devices id ≡ some d
    → command_valid cmd.kind ≡ true
    → authorize c db p d.classroom_id false ≡ ok tt
    → driver_for f d.driver ≡ ok driver
    → driver.execute (target_of d) cmd ≡ err e
    → is_unsupported e ≡ false
    → ((op : String) (id : ℕ) → c.fails op id ≡ false)
    → ((execute c db f p id cmd site).0 ≡ err command_failed)
      × (get (execute c db f p id cmd site).1.devices id
          ≡ some (record d { online = false; updated_at = c.now }))
      × ((execute c db f p id cmd site).1.events
          ≡ record { type = "device.unavailable"; device = record d { online = false } }
            ∷ site.events)
      × ((execute c db f p id cmd site).1.changes ≡ (
          if d.online
          then change_of (record d { online = false }) ∷ site.changes
          else site.changes))
unfolding execute get_device find Repository.get_by_id conclude
execute_failed c db f p id cmd site d driver e h stored valid allowed driven answer failed up =
    let run : execute c db f p id cmd site ≡ conclude c p d (err e) site =
      let up1 = up "device.GetByID" id in ground arith in
    let key = h.keyed id d stored in
    let same : conclude c p d (err e) site ≡ unavailable c d site = ground arith in
    let (refused, kept, told, reported) =
      unavailable_lem c d site (cc (stored, key)) (up "device.UpdateState" d.id) in
    (
      cc (refused, run, same),
      cc (kept, run, same, key),
      cc (told, run, same),
      cc (reported, run, same),
    )
