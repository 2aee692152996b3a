-- ===== src/Hass/Examples/Flows.antt =====
-- A Home Assistant that is onboarded, answers every request and has three flows in progress. Its state
-- is the list of the requests that it has been sent, newest first.
use smartclass.Prelude.{
  ℕ, ◌∙◌, zero, suc, ap, nat_eq, ◌+◌, ◌≤◌, true, false, some, none, List, [], ◌∷◌, ◌≡◌, refl,
  length, arith, text_eq, string_eq,
}
use smartclass.Prelude.Int.{pos}
use smartclass.Prelude.Dict.{empty, get, put}
use smartclass.Prelude.Text.{Text, text, is_nil}
use smartclass.Platform.Errors.{ok}
use smartclass.Classroom.Service.{authorize}
use smartclass.Device.Drivers.{Factory, driver_for}
use smartclass.Device.Repository
use smartclass.Device.Repository.{Device}
use smartclass.Device.Service.{create}
use smartclass.Device.Examples.{calm, school, teacher, bulbs, lab}
use smartclass.Hass.Credentials.{Credentials, Config, needs_refresh}
use smartclass.Hass.Service.{Hass, bootstrap}
use smartclass.Hass.Access.{credentials, current_token, set_token}
use smartclass.Hass.Network.{Call, Network, FlowStep, plain, tuple}
use smartclass.Hass.Client.Remote.{client}
use smartclass.Hass.Client.Flows.{upto_dot, start_flow}
use smartclass.Hass.Client.Progress.{list_in_progress_flows}
use smartclass.Hass.Client.Onboarding.{finish_onboarding}
use smartclass.Hass.Client.Attempts.{Counts, SeenDone, finish_onboarding_ends}
use smartclass.Hass.Filled.{IsFilled}
use smartclass.Hass.Held.{tokens_held}
use smartclass.Hass.Wizard.{
  Wizard, Visit, start, started, retried, pop_last_flow, abort_last, scrub_flows,
}
use smartclass.Hass.Scrub.{start_remembers}
use smartclass.Hass.Aborts.{Logs, listed_of, last_of, aborts, scrub_flows_sent}
use smartclass.Hass.Driver.{Services, has_dot, parse_config}
use smartclass.Drivers.Web.{bool, str, obj, null, other, Fields, no_field, field}
use smartclass.Hass.Adoption.{
  AdoptInput, IsOfStrings, Encoding, adopted_config, adopt, device_type_from_domain, adopt_ok,
}

abbrev home : Network
home = record {
  State = List Call;
  base_url = text "http://ha";
  send = λ call s. (some (record { status = 200; body = text "{}" }), call ∷ s);
  now = λ s. 100;
  cancelled = λ s. false;
  dial = λ s. (true, s);
  receive = λ s. (some [], s);
  write = λ m s. (true, s);
  close = λ s. s;
  decode_onboarding = λ b. some (
      (text "user", true)
      ∷ (text "core_config", true)
      ∷ (text "integration", true)
      ∷ (text "analytics", true)
      ∷ []);
  decode_auth_code = λ b. some (text "code");
  decode_tokens =
      λ b. some (record { access_token = text "new"; refresh_token = []; expires_in = pos 1800 });
  decode_login_flow = λ b. some (text "login");
  decode_login = λ b. some (record { type = text "create_entry"; result = text "code" });
  decode_domains = λ b. some [];
  decode_step = λ b. some (record {
    flow_id = text "f9";
    handler = text "zha";
    type = text "form";
    step_id = text "user";
    reason = [];
  });
  decode_states = λ b. some [];
  decode_object = λ b. some ((text "type", text "auth_ok") ∷ []);
  decode_progress = λ b. some (record {
    success = true;
    result =
        record { flow_id = text "f1"; handler = plain (text "zha"); step_id = text "user" }
        ∷ record { flow_id = text "f2"; handler = plain (text "mqtt"); step_id = text "user" }
        ∷ record { flow_id = text "f3"; handler = tuple (some (text "zha") ∷ []); step_id = [] }
        ∷ [];
  });
}

abbrev token : Text
token = text "secret"

abbrev counts : Counts home
counts = record { count = λ s. length s; count_send = λ call s. omega arith }

finish_onboarding_ends_example :
    (length (finish_onboarding home token []).1 ≤ 0 + 21)
    × ((finish_onboarding home token []).0 ≡ ok tt
        → SeenDone home (finish_onboarding home token []).1)
finish_onboarding_ends_example = finish_onboarding_ends home counts token []

abbrev cfg : Config
cfg = record {
  owner_name = text "Smart Classroom";
  owner_username = text "smartclass";
  owner_password = text "pw";
  language = text "en";
}

abbrev old : Credentials
old = record {
  base_url = text "http://ha";
  token = text "old";
  refresh_token = text "again";
  expires_at = 110;
  onboarded = true;
  updated_at = 1;
}

abbrev unpaired : Hass (client home)
unpaired = record { creds = some old; bootstrap_err = none; row = some old; remote = [] }

unpaired-IsFilled : IsFilled (client home) unpaired
unpaired-IsFilled = record { in_memory = refl; in_row = refl }

tokens_held_example :
    IsFilled (client home) (bootstrap (client home) cfg calm unpaired).1
    × IsFilled (client home) (set_token (client home) calm (text " mine ") unpaired).1
    × IsFilled
        (client home)
        (current_token (client home) cfg calm (λ i. false) (λ h. h) (λ h. h) unpaired).1
    × ((cr : Credentials)
        → (credentials (client home) cfg calm (λ i. false) (λ h. h) (λ h. h) unpaired).0 ≡ ok cr
        → is_nil cr.token ≡ false)
    × ((t : Text)
        → (current_token (client home) cfg calm (λ i. false) (λ h. h) (λ h. h) unpaired).0 ≡ ok t
        → is_nil t ≡ false)
tokens_held_example =
    tokens_held home cfg calm (λ i. false) (λ h. h) (λ h. h) (text " mine ") unpaired
      (λ h filled. filled) (λ h filled. filled) unpaired-IsFilled

-- The flow of the last StartFlow for zha is remembered.
abbrev pairing : Wizard home
pairing = record {
  hass = record unpaired { creds = some (record old { expires_at = 5000 }) };
  last_flow = put empty (text "zha") (text "f0");
}

abbrev visit : Visit home
visit = record { cfg = cfg; ctx = calm; cancelled = λ i. false; between = λ h. h; during = λ h. h }

abbrev form : FlowStep
form = record {
  flow_id = text "f9";
  handler = text "zha";
  type = text "form";
  step_id = text "user";
  reason = [];
}

form_shown : (start home visit (text "zha") pairing).0 ≡ ok form
unfolding start credentials needs_refresh started retried scrub_flows start_flow
form_shown = refl

start_remembers_example :
    get (start home visit (text "zha") pairing).1.last_flow (text "zha") ≡ some (text "f9")
start_remembers_example =
    start_remembers home visit (text "zha") (text "zha") pairing form form_shown

abbrev logs : Logs home
logs = record {
  sent = λ s. s;
  sent_send = λ call s. refl;
  sent_dial = λ s. refl;
  sent_receive = λ s. refl;
  sent_write = λ m s. refl;
  sent_close = λ s. refl;
}

scrub_flows_sent_example :
    let prev = abort_last home token (pop_last_flow home (text "zha") pairing) in
    let listed = (list_in_progress_flows home token prev.hass.remote).0 in
    (scrub_flows home token (text "zha") pairing).hass.remote
    ≡ aborts home token
        (listed_of home (text "zha") listed)
        (aborts home token (last_of home (text "zha") pairing) [])
scrub_flows_sent_example = scrub_flows_sent home logs token (text "zha") pairing

abbrev desk_light : AdoptInput
desk_light = record { entity_id = "light.desk"; classroom_id = 1; name = "Desk"; brand = "" }

-- An object of strings is its keys and values, one after another: each text is its bytes, plus one, and
-- a zero.
abbrev marked : Text → Text → Text
marked [] rest = 0 ∷ rest
marked (c ∷ cs) rest = suc c ∷ marked cs rest

abbrev encode : Fields → Text
encode no_field = []
encode (field key (str t) rest) = marked key (marked t (encode rest))
encode (field key v rest) = []

abbrev grown : ℕ → List Text → List Text
grown c [] = []
grown c (t ∷ ts) = (c ∷ t) ∷ ts

abbrev texts : Text → List Text
texts [] = []
texts (zero ∷ raw) = [] ∷ texts raw
texts (suc c ∷ raw) = grown c (texts raw)

abbrev paired : List Text → Fields
paired [] = no_field
paired (key ∷ []) = no_field
paired (key ∷ t ∷ ts) = field key (str t) (paired ts)

texts-marked : (t raw : Text) → texts (marked t raw) ≡ t ∷ texts raw
texts-marked [] raw = refl
texts-marked (c ∷ cs) raw = ap (grown c) (texts-marked cs raw)

paired-encode : (fs : Fields) → IsOfStrings fs → paired (texts (encode fs)) ≡ fs
paired-encode no_field h = refl
paired-encode (field key (str t) rest) h =
    ap paired (
      texts-marked key (marked t (encode rest))
      ∙ ap (λ ts. key ∷ ts) (texts-marked t (encode rest)))
    ∙ ap (field key (str t)) (paired-encode rest h)
paired-encode (field key (bool b) rest) h = elim h [ ]
paired-encode (field key (obj fs) rest) h = elim h [ ]
paired-encode (field key null rest) h = elim h [ ]
paired-encode (field key other rest) h = elim h [ ]

abbrev services : Services
services = record {
  decode = λ raw. some (paired (texts raw));
  provider = none;
  call = λ base t d service extra. true;
  now = 100;
}

abbrev encoding : Encoding services
encoding = record {
  encode = encode;
  decode-encode = λ fs h. (fs, ap some (paired-encode fs h), λ key. refl);
}

abbrev with_assistant : Factory
with_assistant = put empty "homeassistant" (record bulbs { name = "homeassistant" })

abbrev desk : Device
desk = record {
  id = 50;
  classroom_id = 1;
  name = "Desk";
  type = "light";
  brand = "generic";
  driver = "homeassistant";
  config = some (encode (adopted_config (text "http://ha") (text "light.desk")));
  status = "unknown";
  online = false;
  last_seen_at = none;
  created_at = 100;
  updated_at = 100;
}

desk_adopted :
    (adopt home services encoding visit school with_assistant teacher desk_light (pairing, lab)).0
    ≡ ok desk
unfolding adopt credentials needs_refresh create authorize get put driver_for Repository.create
    empty upto_dot device_type_from_domain adopted_config
desk_adopted = refl

adopt_ok_example :
    let site =
      (adopt home services encoding visit school with_assistant teacher desk_light
        (pairing, lab)).1.1 in
    (authorize calm school teacher 1 true ≡ ok tt)
    × (get site.devices 50 ≡ some desk)
    × (desk.classroom_id ≡ 1)
    × (desk.driver ≡ "homeassistant")
    × (desk.type ≡ device_type_from_domain (upto_dot (text "light.desk")))
    × (is_nil (text "http://ha") ≡ false
        → has_dot (text "light.desk") ≡ true
        → parse_config services desk.config
          ≡ ok (record { base_url = text "http://ha"; token = []; entity_id = text "light.desk" }))
unfolding credentials needs_refresh
adopt_ok_example =
    adopt_ok home services encoding visit school with_assistant teacher desk_light pairing lab
      (record old { expires_at = 5000 }) desk refl desk_adopted
