-- ===== src/Device/Repository.antt =====
-- device.go and postgres.go of backend/internal/device, over the table `devices`
-- (migrations/00003_devices.sql). A configuration is a JSON object, as its text; Go's nil is `none`.
use smartclass.Prelude.{
  ℕ, String, Bool, Option, none, some, List, ◌==◌, nat_eq, if◌then◌else◌, leb, keep,
}
use smartclass.Prelude.Dict.{Dict, get, put, remove, rows}
use smartclass.Prelude.Sort.{sort_with}
use smartclass.Prelude.Text.{Text, text}
use smartclass.Platform.Errors.{Result, ok, err, not_found, internal}
use smartclass.Platform.Exec.{Exec}
use smartclass.Platform.Context.{Ctx, query}

pub record Device : Type 0 where
  pub id : ℕ
  pub classroom_id : ℕ
  pub name : String
  pub type : String
  pub brand : String
  pub driver : String
  pub config : Option Text
  pub status : String
  pub online : Bool
  pub last_seen_at : Option ℕ
  pub created_at : ℕ
  pub updated_at : ℕ

abbrev pub Table : Type 0
Table = Dict ℕ Device

-- encodeJSON, then decodeJSON when the row is read
abbrev pub encode_json : Option Text → Option Text
encode_json none = some (text "{}")
encode_json (some t) = some t

-- INSERT: a second row for one id breaks the primary key. `d` keeps the configuration it had.
unfoldable pub create : Ctx → Device → Exec Table Device
create c d table =
    let row = record d { created_at = c.now; updated_at = c.now } in
    if c.fails "device.Create" d.id then (err internal, table) else elim (get table d.id) [
      | some old ↦ (err internal, table)
      | none ↦ (ok row, put table d.id (record row { config = encode_json d.config }))
    ]

abbrev row_or_missing : Option Device → Result Device
row_or_missing none = err not_found
row_or_missing (some d) = ok d

unfoldable pub get_by_id : Ctx → Table → ℕ → Result Device
get_by_id c table id = query c "device.GetByID" id (row_or_missing (get table id))

unfoldable pub list_by_classroom : Ctx → Table → ℕ → Result (List (ℕ × Device))
list_by_classroom c table classroom_id = query c "device.ListByClassroom" classroom_id (
    ok (
      sort_with (λ a b. leb b.1.created_at a.1.created_at)
        (keep (λ r. r.1.classroom_id == classroom_id) (rows table))))

-- UPDATE devices SET name, type, brand, driver, config, updated_at
unfoldable pub update : Ctx → Device → Exec Table Device
update c d table =
    if c.fails "device.Update" d.id then (err internal, table) else elim (get table d.id) [
      | none ↦ (err not_found, table)
      | some old ↦ (
        ok (record d { updated_at = c.now }),
        put table d.id (record old {
          name = d.name;
          type = d.type;
          brand = d.brand;
          driver = d.driver;
          config = encode_json d.config;
          updated_at = c.now;
        }),
      )
    ]

-- UPDATE devices SET status, online, last_seen_at, updated_at
unfoldable pub update_state : Ctx → ℕ → String → Bool → Option ℕ → Exec Table (Unit {0})
update_state c id status online last_seen table =
    if c.fails "device.UpdateState" id then (err internal, table) else elim (get table id) [
      | none ↦ (err not_found, table)
      | some old ↦ (
        ok tt,
        put table id (record old {
          status = status;
          online = online;
          last_seen_at = last_seen;
          updated_at = c.now;
        }),
      )
    ]

unfoldable pub delete : Ctx → ℕ → Exec Table (Unit {0})
delete c id table =
    if c.fails "device.Delete" id
    then (err internal, table)
    else elim (get table id) [ none ↦ (err not_found, table) | some old ↦ (ok tt, remove table id) ]
