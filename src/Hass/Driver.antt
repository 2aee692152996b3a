-- ===== src/Hass/Driver.antt =====
-- driver.go of backend/internal/devicectl/drivers/homeassistant: a driver of devicectl over the
-- services of Home Assistant. JSON and HTTP are parameters.
-- ErrInvalidConfig and ErrUnavailable, which the services do not tell apart, are `internal`.
use smartclass.Prelude.{
  ℕ, String, Bool, true, false, not, ◌&&◌, ◌||◌, Option, none, some, [], ◌∷◌, ◌≡◌, inl, inr, ◌==◌,
  nat_eq, string_eq, text_eq, if◌then◌else◌, arith,
}
use smartclass.Prelude.Text.{Text, text, is_nil}
use smartclass.Platform.Errors.{
  Result, ok, err, internal, unsupported_command, ◌>>=◌, ◌>>◌, Result-cases,
}
use smartclass.Drivers.Web.{Json, str, null, Fields, no_field, lookup}
use smartclass.Device.Drivers.{Command, Target, Outcome, Driver, command_valid}

pub record HaConfig : Type 0 where
  pub base_url : Text
  pub token : Text
  pub entity_id : Text

-- json.Unmarshal of a configuration into a map (none where it is no object), the provider of tokens (none where it is nil), the
-- POST to a service, whether Home Assistant accepts it, and the clock.
pub record Services : Type 0 where
  pub decode : Text → Option Fields
  pub provider : Option (Option Text)
  pub call : Text → Text → Text → String → Option (String × Text) → Bool
  pub now : ℕ

abbrev pub dot : ℕ
dot = 46

abbrev pub has_dot : Text → Bool
has_dot [] = false
has_dot (c ∷ cs) = c == dot || has_dot cs

-- A field of the struct: empty where the object has none of that key or a null, and an error where the
-- value is no string. Only the key itself is looked up, not its other cases.
abbrev field_of : Option Json → Option Text
field_of none = some []
field_of (some null) = some []
field_of (some (str t)) = some t
field_of (some v) = none

abbrev config_of : Option Text → Option Text → Option Text → Option HaConfig
config_of (some base) (some token) (some id) =
    some (record { base_url = base; token = token; entity_id = id })
config_of base token id = none

-- json.Unmarshal into the struct, with its tags
unfoldable pub read_config : Fields → Option HaConfig
read_config fs =
    config_of (field_of (lookup (text "baseUrl") fs)) (field_of (lookup (text "token") fs))
      (field_of (lookup (text "entityId") fs))

-- The map of a device: one without a configuration has no fields.
abbrev raw_config : Services → Option Text → Option Fields
raw_config s none = some no_field
raw_config s (some raw) = s.decode raw

abbrev decoded : Option Fields → Option HaConfig
decoded none = none
decoded (some fs) = read_config fs

abbrev checked : Option HaConfig → Result HaConfig
checked none = err internal
checked (some cfg) =
    if is_nil cfg.base_url || is_nil cfg.entity_id
    then err internal
    else if has_dot cfg.entity_id
    then ok cfg
    else err internal

unfoldable pub parse_config : Services → Option Text → Result HaConfig
unfolding read_config
parse_config s raw = checked (decoded (raw_config s raw))

abbrev provided : Option Text → Result Text
provided none = err internal
provided (some token) = ok token

unfoldable pub resolve_token : Services → HaConfig → Result Text
resolve_token s cfg = elim s.provider [
  | some answer ↦ provided answer
  | none ↦ if is_nil cfg.token then err internal else ok cfg.token
]

cut : ℕ → Option Text → Option Text
cut c none = none
cut c (some t) = some (c ∷ t)

unfoldable pub before_dot : Text → Option Text
unfolding cut
before_dot [] = none
before_dot (c ∷ cs) = let rest = before_dot cs in if c == dot then some [] else cut c rest

abbrev domain_or : Option Text → Text
domain_or none = text "switch"
domain_or (some d) = if is_nil d then text "switch" else d

-- entityDomain
unfoldable pub entity_domain : Text → Text
unfolding before_dot
entity_domain id = domain_or (before_dot id)

pub record ServiceCall : Type 0 where
  pub domain : Text
  pub service : String
  pub extra : Option (String × Text)

abbrev plain : Text → String → Result ServiceCall
plain d service = ok (record { domain = d; service = service; extra = none })

abbrev with_value : Text → String → String → Text → Result ServiceCall
with_value d service key value =
    ok (record { domain = d; service = service; extra = some (key, value) })

unfoldable pub map_command : Command → Text → Result ServiceCall
map_command cmd d =
    if cmd.kind == "ON"
    then plain d "turn_on"
    else if cmd.kind == "OFF"
    then plain d "turn_off"
    else if cmd.kind == "OPEN"
    then (if d == text "cover"
        then plain d "open_cover"
        else if d == text "lock"
        then plain d "unlock"
        else plain d "turn_on")
    else if cmd.kind == "CLOSE"
    then (if d == text "cover"
        then plain d "close_cover"
        else if d == text "lock"
        then plain d "lock"
        else plain d "turn_off")
    else if cmd.kind == "SET_VALUE"
    then (if d == text "light"
        then with_value d "turn_on" "brightness_pct" cmd.value
        else if d == text "cover"
        then with_value d "set_cover_position" "position" cmd.value
        else if d == text "climate"
        then with_value d "set_temperature" "temperature" cmd.value
        else if d == text "fan"
        then with_value d "set_percentage" "percentage" cmd.value
        else err unsupported_command)
    else err unsupported_command

unfoldable pub infer_status : String → Text → String
infer_status kind d =
    if kind == "ON"
    then "on"
    else if kind == "OFF"
    then "off"
    else if kind == "OPEN"
    then (if d == text "cover" then "open" else "on")
    else if kind == "CLOSE"
    then (if d == text "cover" then "closed" else "off")
    else "unknown"

-- callService: ErrUnavailable where Home Assistant does not accept it
unfoldable pub call_service : Services → HaConfig → Text → ServiceCall → Result (Unit {0})
call_service s cfg token sc =
    if s.call cfg.base_url token sc.domain sc.service sc.extra then ok tt else err internal

-- Execute
unfoldable pub ha_execute : Services → Target → Command → Result Outcome
ha_execute s t cmd = do
  cfg ← parse_config s t.config
  token ← resolve_token s cfg
  sc ← map_command cmd (entity_domain cfg.entity_id)
  call_service s cfg token sc
  ok (record {
    status = infer_status cmd.kind (entity_domain cfg.entity_id);
    online = true;
    last_seen = s.now;
  })

abbrev pub homeassistant : Services → Driver
homeassistant s = record { name = "homeassistant"; execute = ha_execute s }

-- The domains of which Home Assistant takes a value
abbrev pub takes_value : Text → Bool
takes_value d = d == text "light" || d == text "cover" || d == text "climate" || d == text "fan"

-- A command that Home Assistant has no service for: a value of another domain.
abbrev pub has_no_service : Command → Text → Bool
has_no_service cmd d = cmd.kind == "SET_VALUE" && not (takes_value d)

map_command_unsupported :
    (cmd : Command) (d : Text)
    → has_no_service cmd d ≡ true
    → map_command cmd d ≡ err unsupported_command
unfolding map_command
map_command_unsupported cmd d h =
    let at : cmd.kind ≡ "SET_VALUE" = (string_eq.beq_iff cmd.kind "SET_VALUE").0 (ground arith) in
    let other : takes_value d ≡ false = ground arith in rw at (ground (arith, other))

map_command_ok :
    (cmd : Command) (d : Text)
    → command_valid cmd.kind ≡ true
    → has_no_service cmd d ≡ false
    → (sc : ServiceCall) × (map_command cmd d ≡ ok sc) × (sc.domain ≡ d)
unfolding map_command command_valid
map_command_ok cmd d valid h = elim (Result-cases (map_command cmd d)) [
  | inr (e, failed) ↦ absurd (ground arith)
  | inl (sc, good) ↦ (sc, good, ground arith)
]

-- With a readable configuration and a token, a valid command is refused as unsupported, and nothing
-- is called, if it sets a value that the entity's domain does not take; else one service of the
-- entity's domain is called, and the device counts as online exactly if Home Assistant accepts it.
pub ha_execute_calls :
    (s : Services) (t : Target) (cmd : Command) (cfg : HaConfig) (token : Text)
    → parse_config s t.config ≡ ok cfg
    → resolve_token s cfg ≡ ok token
    → command_valid cmd.kind ≡ true
    → let d = entity_domain cfg.entity_id in
      (has_no_service cmd d ≡ true → ha_execute s t cmd ≡ err unsupported_command)
      × (has_no_service cmd d ≡ false
          → (sc : ServiceCall) × (map_command cmd d ≡ ok sc)
            × (sc.domain ≡ d)
            × (ha_execute s t cmd ≡ (
                if s.call cfg.base_url token d sc.service sc.extra
                then ok
                    (record { status = infer_status cmd.kind d; online = true; last_seen = s.now })
                else err internal)))
unfolding ha_execute call_service
ha_execute_calls s t cmd cfg token parsed resolved valid =
    let d = entity_domain cfg.entity_id in
    (
      λ h. ground (arith, parsed, resolved, map_command_unsupported cmd d h),
      λ h.
          let (sc, mapped, own) = map_command_ok cmd d valid h in
          (sc, mapped, own, rw (← own) (ground (arith, parsed, resolved, mapped, own))),
    )
