-- ===== src/Hass/Adoption.antt =====
-- Adopt of service.go of backend/internal/hass: an entity of Home Assistant becomes a device, which the
-- driver of Hass.Driver can read. The JSON of a configuration is a parameter.
use smartclass.Prelude.{
  ℕ, String, true, false, some, [], ◌∷◌, ◌≡◌, inl, inr, sym, ap, ◌∙◌, ◌==◌, text_eq, string_eq,
  nat_eq, if◌then◌else◌, arith, Bool-cases, Option-cases,
}
use smartclass.Prelude.Dict.{get, get-put}
use smartclass.Prelude.Text.{Text, text, is_nil}
use smartclass.Platform.Errors.{ok, Result-cases}
use smartclass.Platform.Exec.{Exec, ◌>>=◌}
use smartclass.Platform.Context.{Ctx}
use smartclass.User.{Principal}
use smartclass.Classroom.Repository.{Db}
use smartclass.Classroom.Service.{authorize}
use smartclass.Device.Repository
use smartclass.Device.Drivers.{Factory}
use smartclass.Device.Repository.{Device}
use smartclass.Device.Service.{Site, CreateInput, known_driver, new_device, create}
use smartclass.Hass.Credentials.{Credentials}
use smartclass.Drivers.Web.{str, Fields, no_field, field, lookup}
use smartclass.Hass.Network.{Network}
use smartclass.Hass.Client.Flows.{upto_dot}
use smartclass.Hass.Wizard.{Wizard, Visit, authenticated}
use smartclass.Hass.Driver.{Services, read_config, has_dot, parse_config}

pub record AdoptInput : Type 0 where
  pub entity_id : String
  pub classroom_id : ℕ
  pub name : String
  pub brand : String

unfoldable pub device_type_from_domain : Text → String
device_type_from_domain d =
    if d == text "light"
    then "light"
    else if d == text "switch"
    then "switch"
    else if d == text "cover"
    then "cover"
    else if d == text "lock"
    then "lock"
    else if d == text "climate"
    then "climate"
    else if d == text "fan"
    then "fan"
    else "generic"

abbrev pub or_default : String → String → String
or_default s d = if s == "" then d else s

-- An object of which every value is a string
abbrev pub IsOfStrings : Fields → Type 0
IsOfStrings no_field = Unit
IsOfStrings (field key (str t) rest) = IsOfStrings rest
IsOfStrings (field key v rest) = ⊥

-- json.Marshal of a map, which json.Unmarshal reads back: an object of strings has the same fields
-- again, in whatever order.
pub record Encoding (s : Services) : Type 0 where
  pub encode : Fields → Text
  pub decode-encode :
      (fs : Fields)
      → IsOfStrings fs
      → (read : Fields) × (s.decode (encode fs) ≡ some read)
        × ((key : Text) → lookup key read ≡ lookup key fs)

-- The configuration that Adopt writes
unfoldable pub adopted_config : Text → Text → Fields
adopted_config base id =
    field (text "baseUrl") (str base) (field (text "entityId") (str id) no_field)

abbrev stored_as : Device → Device
stored_as d = record d { config = Repository.encode_json d.config }

inserted :
    (c : Ctx) (new : Device) (table : Repository.Table) (d : Device)
    → (Repository.create c new table).0 ≡ ok d
    → (d ≡ record new { created_at = c.now; updated_at = c.now })
      × (get (Repository.create c new table).1 d.id ≡ some (stored_as d))
unfolding Repository.create
inserted c new table d h = elim (Bool-cases (c.fails "device.Create" new.id)) [
  | inl failing ↦ absurd (ground (arith, failing))
  | inr fine ↦ elim (Option-cases (get table new.id)) [
    | inr (old, taken) ↦ absurd (ground (arith, fine, taken))
    | inl free ↦
        let row = record new { created_at = c.now; updated_at = c.now } in
        let same : row ≡ d = ground (arith, fine, free) in
        (
          sym same,
          rw (← same) (
              rw (fine, free)
                (ground (
                  arith,
                  get-put table new.id new.id (stored_as row),
                  nat_eq.beq_iff new.id new.id,
                ))),
        )
  ]
]

created :
    (c : Ctx) (db : Db) (f : Factory) (p : Principal) (input : CreateInput) (site : Site)
    (d : Device)
    → (create c db f p input site).0 ≡ ok d
    → (authorize c db p input.classroom_id true ≡ ok tt)
      × (d ≡ record (new_device c input) { created_at = c.now; updated_at = c.now })
      × (get (create c db f p input site).1.devices d.id ≡ some (stored_as d))
unfolding create
created c db f p input site d h = elim (Result-cases (authorize c db p input.classroom_id true)) [
  | inr (e, refused) ↦ absurd (ground (arith, refused))
  | inl (u, allowed) ↦ elim (Result-cases (known_driver f input.driver)) [
    | inr (e, unknown) ↦ absurd (ground (arith, allowed, unknown))
    | inl (driver, known) ↦
        elim (Result-cases (Repository.create c (new_device c input) site.devices).0) [
          | inr (e, failed) ↦ absurd (ground (arith, allowed, known, failed))
          | inl (new, made) ↦
              let (same, there) = inserted c (new_device c input) site.devices new made in
              let this : new ≡ d = ground (arith, allowed, known, made) in
              (allowed, rw (← this) same, rw (← this) (ground (arith, allowed, known, made, there)))
        ]
  ]
]

module _ (net : Network) (s : Services) (j : Encoding s) where
  -- The device that is created for an entity
  abbrev pub adopted : Text → AdoptInput → CreateInput
  adopted base input = record {
    classroom_id = input.classroom_id;
    name = or_default input.name input.entity_id;
    type = device_type_from_domain (upto_dot (text input.entity_id));
    brand = or_default input.brand "generic";
    driver = "homeassistant";
    config = some (j.encode (adopted_config base (text input.entity_id)));
  }

  abbrev on_site : {A : Type 0} → Exec Site A → Exec (Wizard net × Site) A
  on_site m (w, site) = ((m site).0, (w, (m site).1))

  abbrev on_wizard : {A : Type 0} → Exec (Wizard net) A → Exec (Wizard net × Site) A
  on_wizard m (w, site) = ((m w).0, ((m w).1, site))

  unfoldable pub adopt :
      Visit net → Db → Factory → Principal → AdoptInput → Exec (Wizard net × Site) Device
  unfolding device_type_from_domain adopted_config
  adopt v db f p input = on_wizard (authenticated net v) >>= λ cr.
      on_site (create v.ctx db f p (adopted cr.base_url input))

  readable :
      (base id : Text)
      → is_nil base ≡ false
      → has_dot id ≡ true
      → parse_config s (some (j.encode (adopted_config base id)))
        ≡ ok (record { base_url = base; token = []; entity_id = id })
  unfolding parse_config read_config adopted_config lookup
  readable base [] filled dotted = absurd (cc dotted)
  readable base (c ∷ id) filled dotted =
      let (fs, read, same) = j.decode-encode (adopted_config base (c ∷ id)) tt in
      rw (read, same (text "baseUrl"), same (text "token"), same (text "entityId"))
        (ground (arith, filled, dotted))

  -- A successful Adopt was made by one who may change the classroom. It stores a device of that
  -- classroom under the driver of Home Assistant, of the type that the entity's domain tells; and if
  -- the entity's id has a dot and the address of Home Assistant is not empty, the driver reads from
  -- its configuration that address and entity, and no token. An object of strings is taken to have
  -- the same fields again when its JSON is read back.
  pub adopt_ok :
      (v : Visit net) (db : Db) (f : Factory) (p : Principal) (input : AdoptInput) (w : Wizard net)
      (site : Site) (cr : Credentials) (d : Device)
      → (authenticated net v w).0 ≡ ok cr
      → (adopt v db f p input (w, site)).0 ≡ ok d
      → (authorize v.ctx db p input.classroom_id true ≡ ok tt)
        × (get (adopt v db f p input (w, site)).1.1.devices d.id ≡ some d)
        × (d.classroom_id ≡ input.classroom_id)
        × (d.driver ≡ "homeassistant")
        × (d.type ≡ device_type_from_domain (upto_dot (text input.entity_id)))
        × (is_nil cr.base_url ≡ false
            → has_dot (text input.entity_id) ≡ true
            → parse_config s d.config
              ≡ ok
                  (record { base_url = cr.base_url; token = []; entity_id = text input.entity_id }))
  unfolding adopt
  adopt_ok v db f p input w site cr d got h =
      let (allowed, same, there) =
        created v.ctx db f p (adopted cr.base_url input) site d (ground (arith, got, h)) in
      let config : d.config ≡ some (j.encode (adopted_config cr.base_url (text input.entity_id))) =
        ap (λ (x : Device). x.config) same in
      let kept : stored_as d ≡ d = ground (arith, config) in
      (
        allowed,
        rw got (there ∙ ap some kept),
        ap (λ (x : Device). x.classroom_id) same,
        ap (λ (x : Device). x.driver) same,
        ap (λ (x : Device). x.type) same,
        λ filled dotted. rw config (readable cr.base_url (text input.entity_id) filled dotted),
      )
