-- ===== src/Drivers/Generic.antt =====
-- driver.go of backend/internal/devicectl/drivers/generic.
use smartclass.Prelude.{
  ℕ, zero, suc, String, true, false, not, ◌&&◌, ◌||◌, Option, none, some, List, [], ◌∷◌, ◌++◌, ◌==◌,
  nat_eq, string_eq, text_eq, if◌then◌else◌, leb,
}
use smartclass.Prelude.Text.{Text, text, is_nil, trim_space, to_lower, has_prefix}
use smartclass.Platform.Errors.{Result, ok, err, internal, unsupported_command, ◌>>=◌}
use smartclass.Device.Drivers.{Command, Target, Outcome, Driver}
use smartclass.Drivers.Web.{
  Json, bool, str, Fields, no_field, field, lookup, HttpCall, HttpReply, Web, trim_left_slashes,
  trim_right_slashes, replied, string_of,
}

pub record Endpoint : Type 0 where
  pub method : Text
  pub path : Text
  pub body : Text

pub record GenericConfig : Type 0 where
  pub base_url : Text
  pub headers : List (Text × Text)
  pub commands : List (String × Endpoint)
  pub status : Option Endpoint

abbrev config_checked : Option GenericConfig → Result GenericConfig
config_checked none = err internal
config_checked (some cfg) = if is_nil (trim_space cfg.base_url) then err internal else ok cfg

-- parseConfig
unfoldable pub parse_config :
    (Option Text → Option GenericConfig) → Option Text → Result GenericConfig
parse_config decode raw = config_checked (decode raw)

abbrev placeholder : Text
placeholder = text "{{value}}"

-- strings.ReplaceAll(s, "{{value}}", v); `skip` counts the bytes of a placeholder that are left.
unfoldable pub replace_from : Text → ℕ → Text → Text
replace_from v skip [] = []
replace_from v (suc skip) (c ∷ cs) = replace_from v skip cs
replace_from v zero (c ∷ cs) =
    let here = has_prefix (c ∷ cs) placeholder in
    let rest = replace_from v (if here then 8 else 0) cs in if here then v ++ rest else c ∷ rest

-- substituteValue
unfoldable pub substitute_value : Text → Option Text → Text
unfolding replace_from
substitute_value template none = template
substitute_value template (some v) = replace_from v 0 template

abbrev content_type_of : List (Text × Text) → Text
content_type_of [] = []
content_type_of ((k, v) ∷ rest) =
    if to_lower k == text "content-type" then v else content_type_of rest

-- The headers of the configuration, and a content type where they have none and there is a body
unfoldable pub with_content_type : List (Text × Text) → Text → List (Text × Text)
with_content_type headers body =
    if not (is_nil body) && is_nil (content_type_of headers)
    then (text "Content-Type", text "application/json") ∷ headers
    else headers

abbrev url_of : Text → Text → Text
url_of base path = trim_right_slashes base ++ (text "/" ++ trim_left_slashes path)

unfoldable pub call_of : GenericConfig → Endpoint → Text → HttpCall
unfolding with_content_type trim_left_slashes trim_right_slashes
call_of cfg ep body = record {
  method = if is_nil ep.method then text "GET" else ep.method;
  url = url_of cfg.base_url ep.path;
  headers = with_content_type cfg.headers body;
  body = body;
}

abbrev or_raw : Text → Option Fields → Fields
or_raw raw none = field (text "raw") (str raw) no_field
or_raw raw (some fs) = fs

abbrev answer_of : Web → HttpReply → Result Fields
answer_of web r = elim r.body [
  | none ↦ err internal
  | some raw ↦ if leb 400 r.status then err internal else ok (or_raw raw (web.decode raw))
]

-- do
unfoldable pub request : Web → GenericConfig → Endpoint → Text → Result Fields
unfolding call_of
request web cfg ep body = replied (web.send (call_of cfg ep body)) >>= λ r. answer_of web r

unfoldable pub infer_status : String → String
infer_status kind =
    if kind == "ON"
    then "on"
    else if kind == "OFF"
    then "off"
    else if kind == "OPEN"
    then "open"
    else if kind == "CLOSE"
    then "closed"
    else "unknown"

abbrev pub state_status : Text → String
state_status s =
    if s == text "on" || s == text "true"
    then "on"
    else if s == text "off" || s == text "false"
    then "off"
    else if s == text "open"
    then "open"
    else if s == text "closed" || s == text "close"
    then "closed"
    else "unknown"

abbrev pub text_status : Option Text → String
text_status none = "unknown"
text_status (some s) = state_status (to_lower s)

-- `raw["ison"].(bool)`, else `raw["state"].(string)`
abbrev pub status_of : Option Json → Option Json → String
status_of (some (bool true)) state = "on"
status_of (some (bool false)) state = "off"
status_of ison state = text_status (string_of state)

unfoldable pub parse_raw_status : Fields → String
parse_raw_status raw = status_of (lookup (text "ison") raw) (lookup (text "state") raw)

abbrev pub endpoint_for : String → List (String × Endpoint) → Result Endpoint
endpoint_for kind [] = err unsupported_command
endpoint_for kind ((k, ep) ∷ rest) = if k == kind then ok ep else endpoint_for kind rest

module _ (web : Web) (decode : Option Text → Option GenericConfig) where
  -- Execute
  unfoldable pub generic_execute : Target → Command → Result Outcome
  unfolding parse_config request substitute_value infer_status
  generic_execute t cmd = do
    cfg ← parse_config decode t.config
    ep ← endpoint_for cmd.kind cfg.commands
    raw ← request web cfg ep (substitute_value ep.body (web.format cmd.value))
    ok (record { status = infer_status cmd.kind; online = true; last_seen = web.now })

  abbrev pub probed : GenericConfig → Option Endpoint → Result Outcome
  probed cfg none = ok (record { status = "unknown"; online = false; last_seen = 0 })
  probed cfg (some ep) = do
    raw ← request web cfg ep []
    ok (record { status = parse_raw_status raw; online = true; last_seen = web.now })

  -- Probe
  unfoldable pub generic_probe : Target → Result Outcome
  unfolding parse_config request parse_raw_status
  generic_probe t = do cfg ← parse_config decode t.config; probed cfg cfg.status

  abbrev pub generic_http : Driver
  generic_http = record { name = "generic_http"; execute = generic_execute }
