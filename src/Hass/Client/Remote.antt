-- ===== src/Hass/Client/Remote.antt =====
-- The client is what the service of backend/internal/hass takes for Home Assistant.
use smartclass.Platform.Errors.{ok}
use smartclass.Platform.Exec.{lift, ◌>>=◌}
use smartclass.Hass.Credentials.{Remote}
use smartclass.Hass.Network.{Network}
use smartclass.Hass.Client.Tokens.{
  create_owner, exchange_code, refresh_access_token, login_with_password,
}
use smartclass.Hass.Client.Onboarding.{onboarding_status, finish_onboarding}
use smartclass.Hass.Client.Flows.{list_entities}

abbrev pub client : Network → Remote
client net = record {
  State = net.State;
  base_url = net.base_url;
  onboarding_status = onboarding_status net;
  finish_onboarding = finish_onboarding net;
  login_with_password = login_with_password net;
  create_owner = create_owner net;
  exchange_code = exchange_code net;
  refresh_access_token = refresh_access_token net;
  list_entities = λ token. list_entities net token >>= λ entities. lift (ok tt);
}
