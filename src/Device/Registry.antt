-- ===== src/Device/Registry.antt =====
-- What holds of the table of devices between two requests, and what a refused request leaves.
use smartclass.Prelude.{
  ℕ, Bool, true, false, Option, some, inl, inr, ◌≡◌, ◌≢◌, ◌⊎◌, sym, String, nat_eq, string_eq,
  arith, Bool-cases,
}
use smartclass.Prelude.Dict.{get, get-put, get-remove}
use smartclass.Platform.Errors.{Error, Result, ok, err, is_ok, command_failed}
use smartclass.Platform.Context.{Ctx}
use smartclass.User.{Principal}
use smartclass.Classroom.Repository.{Db}
use smartclass.Device.Drivers.{Command, Factory, Outcome, driver_for}
use smartclass.Device.Repository
use smartclass.Device.Repository.{Device, update_state}
use smartclass.Device.Service
use smartclass.Device.Service.{
  CreateInput, UpdateInput, Site, on_devices, find, get_device, unavailable, answered, conclude,
  is_unsupported,
}
use smartclass.Device.Requests.{
  Request, create, update, delete, execute, perform, perform-create, perform-update, perform-delete,
  perform-execute,
}

-- A device is stored under its id, and its driver is registered.
pub record IsRegistry (f : Factory) (site : Site) : Type 0 where
  pub keyed : (id : ℕ) (d : Device) → get site.devices id ≡ some d → d.id ≡ id
  pub driven :
      (id : ℕ) (d : Device) → get site.devices id ≡ some d → is_ok (driver_for f d.driver) ≡ true

update_state-IsRegistry :
    (c : Ctx) (f : Factory) (i : ℕ) (status : String) (online : Bool) (seen : Option ℕ)
    (site : Site)
    → IsRegistry f site
    → IsRegistry f (on_devices (update_state c i status online seen) site).1
unfolding update_state
update_state-IsRegistry c f i status online seen site h = record {
  keyed = λ id dev. grind (arith, get-put, h.keyed);
  driven = λ id dev. grind (arith, get-put, h.driven);
}

-- What is published, reported and recorded does not touch the table.
same_devices :
    (f : Factory) (site site' : Site)
    → site.devices ≡ site'.devices
    → IsRegistry f site
    → IsRegistry f site'
same_devices f site site' same h = record {
  keyed = λ id d found. h.keyed id d (cc (found, same));
  driven = λ id d found. h.driven id d (cc (found, same));
}

conclude_devices :
    (c : Ctx) (p : Principal) (d : Device) (r : Result Outcome) (site : Site)
    → ((conclude c p d r site).1.devices ≡ site.devices)
      ⊎ ((status : String) × (online : Bool) × (seen : Option ℕ) × ((conclude c p d r
              site).1.devices
            ≡ (update_state c d.id status online seen site.devices).1))
unfolding conclude unavailable answered
conclude_devices c p d (ok res) site =
    inr (res.status, res.online, some res.last_seen, ground arith)
conclude_devices c p d (err e) site = elim (Bool-cases (is_unsupported e)) [
  | inl same ↦ inl (ground arith)
  | inr failed ↦ inr (d.status, false, d.last_seen_at, ground arith)
]

conclude-IsRegistry :
    (c : Ctx) (p : Principal) (f : Factory) (d : Device) (r : Result Outcome) (site : Site)
    → IsRegistry f site
    → IsRegistry f (conclude c p d r site).1
conclude-IsRegistry c p f d r site h = elim (conclude_devices c p d r site) [
  | inl same ↦ same_devices f site (conclude c p d r site).1 (sym same) h
  | inr (status, online, seen, same) ↦
      same_devices f (on_devices (update_state c d.id status online seen) site).1
        (conclude c p d r site).1 (sym same)
        (update_state-IsRegistry c f d.id status online seen site h)
]

pub execute-IsRegistry :
    (c : Ctx) (db : Db) (f : Factory) (p : Principal) (id : ℕ) (cmd : Command) (site : Site)
    → IsRegistry f site
    → IsRegistry f (Service.execute c db f p id cmd site).1
unfolding Service.execute get_device
execute-IsRegistry c db f p id cmd site h = grind (arith, conclude-IsRegistry c p f)

-- An error that is not ErrCommandFailed comes before anything is changed.
conclude_unchanged :
    (c : Ctx) (p : Principal) (d : Device) (r : Result Outcome) (site : Site) (e : Error)
    → (conclude c p d r site).0 ≡ err e
    → e ≢ command_failed
    → (conclude c p d r site).1 ≡ site
unfolding conclude unavailable answered update_state
conclude_unchanged c p d (ok res) site e h other = ground arith
conclude_unchanged c p d (err x) site e h other = ground arith

create-IsRegistry :
    (c : Ctx) (db : Db) (f : Factory) (p : Principal) (input : CreateInput) (site : Site)
    → IsRegistry f site
    → IsRegistry f (Service.create c db f p input site).1
unfolding Service.create Repository.create
create-IsRegistry c db f p input site h = record {
  keyed = λ id d. grind (arith, get-put, h.keyed);
  driven = λ id d. grind (arith, get-put, h.driven);
}

update-IsRegistry :
    (c : Ctx) (db : Db) (f : Factory) (p : Principal) (i : ℕ) (input : UpdateInput) (site : Site)
    → IsRegistry f site
    → IsRegistry f (Service.update c db f p i input site).1
unfolding Service.update get_device find Repository.update Repository.get_by_id
update-IsRegistry c db f p i input site h = record {
  keyed = λ id d. grind (arith, get-put, h.keyed);
  driven = λ id d. grind (arith, get-put, h.driven);
}

delete-IsRegistry :
    (c : Ctx) (db : Db) (f : Factory) (p : Principal) (i : ℕ) (site : Site)
    → IsRegistry f site
    → IsRegistry f (Service.delete c db p i site).1
unfolding Service.delete get_device Repository.delete
delete-IsRegistry c db f p i site h = record {
  keyed = λ id d. grind (arith, get-remove, h.keyed);
  driven = λ id d. grind (arith, get-remove, h.driven);
}

-- Every request, whether it succeeds or not, keeps devices stored under their ids and run by
-- drivers that are registered.
pub perform-IsRegistry :
    (c : Ctx) (db : Db) (f : Factory) (p : Principal) (r : Request) (site : Site)
    → IsRegistry f site
    → IsRegistry f (perform c db f p r site).1
perform-IsRegistry c db f p (create input) site h =
    rw (perform-create c db f p input site) (create-IsRegistry c db f p input site h)
perform-IsRegistry c db f p (update i input) site h =
    rw (perform-update c db f p i input site) (update-IsRegistry c db f p i input site h)
perform-IsRegistry c db f p (delete i) site h =
    rw (perform-delete c db f p i site) (delete-IsRegistry c db f p i site h)
perform-IsRegistry c db f p (execute i cmd) site h =
    rw (perform-execute c db f p i cmd site) (execute-IsRegistry c db f p i cmd site h)

execute_unchanged :
    (c : Ctx) (db : Db) (f : Factory) (p : Principal) (id : ℕ) (cmd : Command) (site : Site)
    (e : Error)
    → (Service.execute c db f p id cmd site).0 ≡ err e
    → e ≢ command_failed
    → (Service.execute c db f p id cmd site).1 ≡ site
unfolding Service.execute get_device
execute_unchanged c db f p id cmd site e h other = grind (arith, conclude_unchanged c p)

-- A request that is refused for any reason but a failed command leaves the devices, the events and
-- the records of the site as they were.
pub refused_unchanged :
    (c : Ctx) (db : Db) (f : Factory) (p : Principal) (r : Request) (site : Site) (e : Error)
    → (perform c db f p r site).0 ≡ err e
    → e ≢ command_failed
    → (perform c db f p r site).1 ≡ site
unfolding perform Service.create Service.update Service.delete get_device Repository.create
    Repository.update Repository.delete
refused_unchanged c db f p (create input) site e h other = ground arith
refused_unchanged c db f p (update i input) site e h other = ground arith
refused_unchanged c db f p (delete i) site e h other = ground arith
refused_unchanged c db f p (execute i cmd) site e h other = cc (
  perform-execute c db f p i cmd site,
  execute_unchanged c db f p i cmd site e (ground arith) other,
)
