-- ===== src/Drivers/Probes.antt =====
-- Probe of driver.go of backend/internal/devicectl/drivers/homeassistant.
use smartclass.Prelude.{
  String, Bool, true, not, ◌||◌, Option, none, some, [], ◌∷◌, ◌++◌, ◌==◌, text_eq, if◌then◌else◌,
  leb,
}
use smartclass.Prelude.Text.{Text, text, is_nil, to_lower}
use smartclass.Platform.Errors.{Result, ok, err, internal, ◌>>=◌}
use smartclass.Device.Drivers.{Target, Outcome}
use smartclass.Hass.Driver.{HaConfig, Services, parse_config, resolve_token}
use smartclass.Drivers.Web.{HttpCall, HttpReply, Web, trim_right_slashes, replied}

unfoldable pub state_to_status : Text → String
state_to_status s =
    if s == text "on"
    then "on"
    else if s == text "off"
    then "off"
    else if s == text "open" || s == text "opening"
    then "open"
    else if s == text "closed" || s == text "closing"
    then "closed"
    else "unknown"

abbrev unreachable : Text → Bool
unreachable s = s == text "unavailable" || s == text "unknown" || is_nil s

unfoldable pub state_call : HaConfig → Text → HttpCall
unfolding trim_right_slashes
state_call cfg token = record {
  method = text "GET";
  url = trim_right_slashes cfg.base_url ++ text "/api/states/" ++ cfg.entity_id;
  headers = (text "Authorization", text "Bearer " ++ token) ∷ [];
  body = [];
}

-- `decode` reads the state of an entity: none where the body is not one.
module _ (web : Web) (s : Services) (decode : Option Text → Option Text) where
  abbrev pub seen : Option Text → Outcome
  seen none = record { status = "unknown"; online = true; last_seen = web.now }
  seen (some state) = record {
    status = state_to_status (to_lower state);
    online = not (unreachable state);
    last_seen = web.now;
  }

  abbrev pub accepted : HttpReply → Result HttpReply
  accepted r = if leb 400 r.status then err internal else ok r

  -- Probe
  unfoldable pub ha_probe : Target → Result Outcome
  unfolding state_call state_to_status
  ha_probe t = do
    cfg ← parse_config s t.config
    token ← resolve_token s cfg
    answer ← replied (web.send (state_call cfg token))
    r ← accepted answer
    ok (seen (decode r.body))
