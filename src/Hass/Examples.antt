-- ===== src/Hass/Examples.antt =====
-- A Home Assistant that answers every refresh with the next token, a minute and forty seconds long.
mod Flows
use smartclass.Prelude.{
  ◌==◌, [], if◌then◌else◌, string_eq, ℕ, ◌+◌, Bool, true, false, none, some, ◌≡◌, refl, nat_eq, ltb,
  string_eq,
}
use smartclass.Prelude.Text.{text, trim_space}
use smartclass.Device.Drivers.{Command, Target, command_valid}
use smartclass.Drivers.Web.{str, no_field, field, lookup}
use smartclass.Hass.Driver.{
  HaConfig, Services, ServiceCall, parse_config, resolve_token, entity_domain, has_no_service,
  map_command, infer_status, ha_execute, ha_execute_calls,
}
use smartclass.Platform.Errors.{unsupported_command, ok, err, internal}
use smartclass.Platform.Context.{Ctx}
use smartclass.Hass.Credentials.{Credentials, needs_refresh, TokenSet, Config, Remote, save}
use smartclass.Hass.Service.{Hass, on_remote}
use smartclass.Hass.Access.{expired, look, refreshed, manual, credentials, set_token}
use smartclass.Hass.Refresh.{refreshed_once, set_token_lost}

abbrev minted : ℕ → TokenSet
minted n = record { access_token = text "new"; refresh_token = text "again"; expires_at = 200 + n }

abbrev counter : Remote
counter = record {
  State = ℕ;
  base_url = text "http://hass";
  onboarding_status = λ n. (
    ok (record {
      owner_done = true;
      core_config_done = true;
      integration_done = true;
      analytics_done = true;
    }),
    n,
  );
  finish_onboarding = λ token n. (ok tt, n);
  login_with_password = λ name password n. (ok (minted n), n + 1);
  create_owner = λ name username password language n. (err internal, n);
  exchange_code = λ code n. (ok (minted n), n + 1);
  refresh_access_token = λ token n. (ok (minted n), n + 1);
  list_entities = λ token n. (ok tt, n);
}

abbrev cfg : Config
cfg = record {
  owner_name = text "Smart Classroom";
  owner_username = text "smartclass";
  owner_password = text "pw";
  language = text "en";
}

abbrev at : ℕ → Ctx
at now = record { now = now; fresh = λ n. n; fails = λ op i. false }

abbrev old : Credentials
old = record {
  base_url = text "http://hass";
  token = text "old";
  refresh_token = text "again";
  expires_at = 110;
  onboarded = true;
  updated_at = 1;
}

abbrev home : Hass counter
home = record { creds = some old; bootstrap_err = none; row = some old; remote = 0 }

abbrev going : ℕ → Bool
going i = false

abbrev new : Credentials
new = refreshed counter (at 100) (minted 0) old

first_answer : (credentials counter cfg (at 100) going (λ g. g) (λ g. g) home).0 ≡ ok new
unfolding credentials needs_refresh
first_answer = refl

stale : look true 100 (some old) ≡ expired (text "again")
unfolding needs_refresh
stale = refl

stale_later : look true 101 (some old) ≡ expired (text "again")
unfolding needs_refresh
stale_later = refl

serves : needs_refresh 101 new ≡ false
unfolding needs_refresh
serves = refl

refreshed_once_example :
    let first = (credentials counter cfg (at 100) going (λ g. g) (λ g. g) home).1 in
    credentials counter cfg (at 101) going (λ g. first) (λ g. g) home ≡ (ok new, first)
refreshed_once_example =
    refreshed_once counter cfg (at 100) (at 101) going going (λ g. g) home new (text "again")
      (text "again") stale stale_later first_answer refl serves

token_set :
    (set_token counter
      (at 100)
      (text "mine")
      (on_remote counter (counter.refresh_access_token (text "again")) home).1).0
    ≡ ok tt
unfolding set_token save trim_space
token_set = refl

set_token_lost_example :
    let after =
      (credentials counter cfg
        (at 100)
        going
        (λ g. g)
        (λ g. (set_token counter (at 100) (text "mine") g).1)
        home).1 in
    after.creds
    ≡ some
        (refreshed counter (at 100) (minted 0) (manual counter (at 100) (trim_space (text "mine"))))
set_token_lost_example =
    set_token_lost counter cfg (at 100) (at 100) going home (text "again") (text "mine") (minted 0)
      stale refl token_set

abbrev switchboard : Services
switchboard = record {
  decode = λ raw. some (
      field (text "baseUrl") (str (text "http://hass"))
        (field (text "entityId") (str (text "switch.lamp")) no_field));
  provider = some (some (text "new"));
  call = λ base token d service extra. service == "turn_on";
  now = 100;
}

abbrev its_config : HaConfig
its_config = record { base_url = text "http://hass"; token = []; entity_id = text "switch.lamp" }

read_config : parse_config switchboard (some []) ≡ ok its_config
unfolding parse_config lookup
read_config = refl

got_token : resolve_token switchboard its_config ≡ ok (text "new")
unfolding resolve_token
got_token = refl

valid : command_valid "SET_VALUE" ≡ true
unfolding command_valid
valid = refl
