-- ===== src/Device/Service.antt =====
-- service.go of backend/internal/device. Beside the table, a request changes what others hear of:
-- the events handed to the broker, the calls of the trigger and the records of the audit log,
-- newest first. That a broker fails is only logged.
use smartclass.Prelude.{
  ℕ, String, Bool, true, false, not, Option, none, some, List, ◌∷◌, nat_eq, if◌then◌else◌,
}
use smartclass.Prelude.Text.{Text}
use smartclass.Platform.Errors.{
  Error, Result, ok, err, not_found_as, device_not_found, unknown_driver, command_failed,
  unsupported_command, reject_if,
}
use smartclass.Platform.Exec.{Exec, mapping, read, lift, pure, ◌>>=◌}
use smartclass.Platform.Context.{Ctx}
use smartclass.User.{Principal}
use smartclass.Classroom.Repository.{Db}
use smartclass.Classroom.Service.{authorize}
use smartclass.Device.Drivers.{Command, Outcome, Driver, Factory, command_valid, driver_for}
use smartclass.Device.Repository
use smartclass.Device.Repository.{Device}

-- realtime.Event on the topic `classroom:<id>:devices`
pub record Event : Type 0 where
  pub type : String
  pub device : Device

-- A call of Trigger.OnDeviceStateChange
pub record Change : Type 0 where
  pub classroom_id : ℕ
  pub device_id : ℕ
  pub name : String
  pub online : Bool
  pub status : String

-- A call of Recorder.Record, less its metadata
pub record Action : Type 0 where
  pub actor : ℕ
  pub device_id : ℕ
  pub verb : String

pub record Site : Type 0 where
  pub devices : Repository.Table
  pub events : List Event
  pub changes : List Change
  pub actions : List Action

abbrev pub on_devices : {A : Type 0} → Exec Repository.Table A → Exec Site A
on_devices m site = ((m site.devices).0, record site { devices = (m site.devices).1 })

abbrev pub publish : Device → String → Exec Site (Unit {0})
publish d type site =
    (ok tt, record site { events = record { type = type; device = d } ∷ site.events })

abbrev pub notify : Bool → Device → Exec Site (Unit {0})
notify false d site = (ok tt, site)
notify true d site = (
  ok tt,
  record site {
    changes =
        record {
          classroom_id = d.classroom_id;
          device_id = d.id;
          name = d.name;
          online = d.online;
          status = d.status;
        }
        ∷ site.changes;
  },
)

abbrev pub recorded : Principal → Device → String → Exec Site (Unit {0})
recorded p d verb site = (
  ok tt,
  record site {
    actions = record { actor = p.user_id; device_id = d.id; verb = verb } ∷ site.actions;
  },
)

pub record CreateInput : Type 0 where
  pub classroom_id : ℕ
  pub name : String
  pub type : String
  pub brand : String
  pub driver : String
  pub config : Option Text

-- `if _, err := s.factory.Get(name); err != nil { return nil, ErrUnknownDriver }`
abbrev pub known_driver : Factory → String → Result Driver
known_driver f name = elim (driver_for f name) [ err e ↦ err unknown_driver | ok d ↦ ok d ]

abbrev pub new_device : Ctx → CreateInput → Device
new_device c input = record {
  id = c.fresh 0;
  classroom_id = input.classroom_id;
  name = input.name;
  type = input.type;
  brand = input.brand;
  driver = input.driver;
  config = input.config;
  status = "unknown";
  online = false;
  last_seen_at = none;
  created_at = 0;
  updated_at = 0;
}

unfoldable pub create : Ctx → Db → Factory → Principal → CreateInput → Exec Site Device
create c db f p input = lift (authorize c db p input.classroom_id true) >>= λ _.
    lift (known_driver f input.driver) >>= λ _.
    on_devices (Repository.create c (new_device c input)) >>= λ d.
    publish d "device.created" >>= λ _. recorded p d "create" >>= λ _. pure d

-- Service.load
unfoldable pub find : Ctx → Repository.Table → ℕ → Result Device
find c table id = not_found_as device_not_found (Repository.get_by_id c table id)

-- Service.Get; load and Authorize begin the other methods in the same way
unfoldable pub get_device : Ctx → Db → Principal → ℕ → Bool → Exec Site Device
get_device c db p id mutate = read (λ site. find c site.devices id) >>= λ d.
    lift (authorize c db p d.classroom_id mutate) >>= λ _. pure d

unfoldable pub list_by_classroom : Ctx → Db → Principal → ℕ → Exec Site (List (ℕ × Device))
list_by_classroom c db p classroom_id = lift (authorize c db p classroom_id false) >>= λ _.
    read (λ site. Repository.list_by_classroom c site.devices classroom_id)

pub record UpdateInput : Type 0 where
  pub name : Option String
  pub type : Option String
  pub brand : Option String
  pub driver : Option String
  pub config : Option (Option Text)

abbrev pub or_keep {ℓ} : {A : Type ℓ} → Option A → A → A
or_keep none old = old
or_keep (some new) old = new

abbrev pub edited : UpdateInput → Device → Device
edited input d = record d {
  name = or_keep input.name d.name;
  type = or_keep input.type d.type;
  brand = or_keep input.brand d.brand;
  driver = or_keep input.driver d.driver;
  config = or_keep input.config d.config;
}

abbrev pub driver_checked : Factory → Option String → Result (Unit {0})
driver_checked f none = ok tt
driver_checked f (some name) = elim (known_driver f name) [ err e ↦ err e | ok d ↦ ok tt ]

unfoldable pub update : Ctx → Db → Factory → Principal → ℕ → UpdateInput → Exec Site Device
update c db f p id input = get_device c db p id true >>= λ d.
    lift (driver_checked f input.driver) >>= λ _.
    mapping (not_found_as device_not_found) (on_devices (Repository.update c (edited input d)))
    >>= λ u. publish u "device.updated" >>= λ _. recorded p u "update" >>= λ _. pure u

unfoldable pub delete : Ctx → Db → Principal → ℕ → Exec Site (Unit {0})
delete c db p id = get_device c db p id true >>= λ d. on_devices (Repository.delete c id) >>= λ _.
    publish d "device.deleted" >>= λ _. recorded p d "delete"

abbrev pub differ : Bool → Bool → Bool
differ true b = not b
differ false b = b

-- The driver failed: the device counts as offline, whether that can be stored or not.
unfoldable pub unavailable : Ctx → Device → Exec Site Device
unavailable c d site =
    let stored =
      (on_devices (Repository.update_state c d.id d.status false d.last_seen_at) site).1 in
    let off = record d { online = false } in
    let told = (publish off "device.unavailable" stored).1 in
    (err command_failed, (notify d.online off told).1)

unfoldable pub answered : Ctx → Principal → Device → Outcome → Exec Site Device
answered c p d res =
    let new = record d {
      status = res.status;
      online = res.online;
      last_seen_at = some res.last_seen;
    } in
    on_devices (Repository.update_state c d.id res.status res.online (some res.last_seen)) >>= λ _.
    publish new "device.state_changed" >>= λ _.
    notify (differ d.online res.online) new >>= λ _. recorded p d "command" >>= λ _. pure new

-- `errors.Is(err, devicectl.ErrUnsupportedCommand)`
abbrev pub is_unsupported : Error → Bool
is_unsupported unsupported_command = true
is_unsupported e = false

unfoldable pub conclude : Ctx → Principal → Device → Result Outcome → Exec Site Device
conclude c p d (ok res) site = answered c p d res site
conclude c p d (err e) site =
    if is_unsupported e then (err unsupported_command, site) else unavailable c d site

unfoldable pub execute : Ctx → Db → Factory → Principal → ℕ → Command → Exec Site Device
execute c db f p id cmd =
    lift (reject_if (not (command_valid cmd.kind)) unsupported_command) >>= λ _.
    get_device c db p id false >>= λ d. lift (known_driver f d.driver) >>= λ driver.
    conclude c p d (driver.execute (record { id = d.id; brand = d.brand; config = d.config }) cmd)
