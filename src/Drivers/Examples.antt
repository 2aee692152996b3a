-- ===== src/Drivers/Examples.antt =====
-- A relay that answers every request with its state.
use smartclass.Prelude.{true, some, none, [], ◌∷◌, ◌≡◌, refl}
use smartclass.Prelude.Text.{text, trim_space, to_lower}
use smartclass.Platform.Errors.{ok}
use smartclass.Device.Drivers.{Target}
use smartclass.Drivers.Web.{str, no_field, field, lookup, Web}
use smartclass.Drivers.Generic.{Endpoint, GenericConfig, substitute_value, generic_probe}

abbrev relay : Web
relay = record {
  send = λ call. some (record { status = 200; body = some [] });
  now = 100;
  decode = λ body. some (field (text "state") (str (text "ON")) no_field);
  format = λ value. some value;
}

abbrev switched : Endpoint
switched = record {
  method = text "POST";
  path = text "//relay/0";
  body = text "turn={{value}}&was={{value}}";
}

abbrev cfg : GenericConfig
cfg = record {
  base_url = text "http://relay/";
  headers = [];
  commands = ("ON", switched) ∷ [];
  status = some switched;
}

abbrev plug : Target
plug = record { id = 3; brand = "Aqara"; config = none }

value_twice : substitute_value switched.body (some (text "on")) ≡ text "turn=on&was=on"
unfolding substitute_value
value_twice = refl

relay_probed :
    generic_probe relay (λ raw. some cfg) plug
    ≡ ok (record { status = "on"; online = true; last_seen = 100 })
unfolding generic_probe trim_space lookup to_lower
relay_probed = refl
