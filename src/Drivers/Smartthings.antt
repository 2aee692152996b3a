-- ===== src/Drivers/Smartthings.antt =====
-- driver.go of backend/internal/devicectl/drivers/smartthings.
use smartclass.Prelude.{
  String, true, ◌||◌, Option, none, some, List, [], ◌∷◌, ◌++◌, ◌==◌, string_eq, text_eq,
  if◌then◌else◌, leb,
}
use smartclass.Prelude.Text.{Text, text, is_nil, to_lower}
use smartclass.Platform.Errors.{Result, ok, err, internal, unsupported_command, ◌>>=◌}
use smartclass.Device.Drivers.{Command, Target, Outcome, Driver}
use smartclass.Drivers.Web.{
  Json, Fields, no_field, lookup, HttpCall, HttpReply, Web, trim_right_slashes, replied, string_of,
  fields_of,
}

pub record StConfig : Type 0 where
  pub token : Text
  pub device_id : Text
  pub component : Text
  pub capability : Text
  pub set_command : Text
  pub base_url : Text

pub record StCommand : Type 0 where
  pub component : Text
  pub capability : Text
  pub command : Text
  pub arguments : List Text

abbrev override : Text → Text → Text
override custom fallback = if is_nil custom then fallback else custom

abbrev config_checked : Option StConfig → Result StConfig
config_checked none = err internal
config_checked (some cfg) =
    if is_nil cfg.token || is_nil cfg.device_id
    then err internal
    else ok (record cfg { component = override cfg.component (text "main") })

-- parseConfig
unfoldable pub parse_config : (Option Text → Option StConfig) → Option Text → Result StConfig
parse_config decode raw = config_checked (decode raw)

abbrev stated : StConfig → Text → Text → List Text → String → Result (StCommand × String)
stated cfg capability command arguments status = ok (
  record {
    component = cfg.component;
    capability = capability;
    command = command;
    arguments = arguments;
  },
  status,
)

abbrev for_lock : Text → Text → Text → Text
for_lock capability locked moved = if capability == text "lock" then locked else moved

abbrev value_of : Option Text → List Text
value_of none = []
value_of (some v) = v ∷ []

-- mapCommand, with the status that is expected
unfoldable pub map_command : Web → Command → StConfig → Result (StCommand × String)
map_command web cmd cfg =
    let switch = override cfg.capability (text "switch") in
    let shade = override cfg.capability (text "windowShade") in
    if cmd.kind == "ON"
    then stated cfg switch (text "on") [] "on"
    else if cmd.kind == "OFF"
    then stated cfg switch (text "off") [] "off"
    else if cmd.kind == "OPEN"
    then stated cfg shade (for_lock shade (text "unlock") (text "open")) [] "open"
    else if cmd.kind == "CLOSE"
    then stated cfg shade (for_lock shade (text "lock") (text "close")) [] "closed"
    else if cmd.kind == "SET_VALUE"
    then stated cfg (override cfg.capability (text "switchLevel"))
        (override cfg.set_command (text "setLevel")) (value_of (web.format cmd.value)) "unknown"
    else err unsupported_command

unfoldable pub map_state : Text → String
map_state s =
    if s == text "on"
    then "on"
    else if s == text "off"
    then "off"
    else if s == text "open"
    then "open"
    else if s == text "closed"
    then "closed"
    else "unknown"

abbrev into : Option Fields → Text → Option Json
into none key = none
into (some fs) key = lookup key fs

abbrev pub state_of : Option Text → String
state_of none = "unknown"
state_of (some s) = map_state (to_lower s)

-- extractStatus: components.<component>.<capability>.<capability>.value
unfoldable pub extract_status : Fields → StConfig → String
unfolding map_state
extract_status raw cfg =
    let capability = override cfg.capability (text "switch") in
    let components = fields_of (lookup (text "components") raw) in
    let component = fields_of (into components cfg.component) in
    let block = fields_of (into component capability) in
    let inner = fields_of (into block capability) in
    state_of (string_of (into inner (text "value")))

abbrev raw_of : Web → HttpReply → Result Fields
raw_of web r =
    if leb 400 r.status
    then err internal
    else ok (elim r.body [
      | none ↦ no_field
      | some raw ↦ elim (web.decode raw) [ none ↦ no_field | some fs ↦ fs ]
    ])

-- A driver with its base URL, and the JSON of a command
module _ (web : Web) (base : Text) (decode : Option Text → Option StConfig)
    (encode : StCommand → Text) where
  unfoldable pub call_of : Text → StConfig → Text → Text → HttpCall
  unfolding trim_right_slashes
  call_of method cfg path body = record {
    method = method;
    url = trim_right_slashes (override cfg.base_url base) ++ path;
    headers =
        (text "Authorization", text "Bearer " ++ cfg.token)
        ∷ (text "Content-Type", text "application/json")
        ∷ [];
    body = body;
  }

  -- do
  unfoldable pub request : Text → StConfig → Text → Text → Result Fields
  unfolding call_of
  request method cfg path body =
      replied (web.send (call_of method cfg path body)) >>= λ r. raw_of web r

  -- Execute
  unfoldable pub st_execute : Target → Command → Result Outcome
  unfolding parse_config map_command request
  st_execute t cmd = do
    cfg ← parse_config decode t.config
    mapped ← map_command web cmd cfg
    raw ←
        request (text "POST") cfg (text "/devices/" ++ cfg.device_id ++ text "/commands")
          (encode mapped.0)
    ok (record { status = mapped.1; online = true; last_seen = web.now })

  -- Probe
  unfoldable pub st_probe : Target → Result Outcome
  unfolding parse_config request extract_status
  st_probe t = do
    cfg ← parse_config decode t.config
    raw ← request (text "GET") cfg (text "/devices/" ++ cfg.device_id ++ text "/status") []
    ok (record { status = extract_status raw cfg; online = true; last_seen = web.now })

  abbrev pub smartthings : Driver
  smartthings = record { name = "smartthings"; execute = st_execute }
