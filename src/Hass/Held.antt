-- ===== src/Hass/Held.antt =====
-- service.go over client.go of backend/internal/hass: no token that the backend holds or hands out is
-- empty, whatever Home Assistant answers.
use smartclass.Prelude.{ℕ, Bool, false, ◌≡◌}
use smartclass.Prelude.Text.{Text, is_nil}
use smartclass.Platform.Errors.{ok}
use smartclass.Platform.Context.{Ctx}
use smartclass.Hass.Credentials.{Credentials, Config}
use smartclass.Hass.Service.{Hass, bootstrap}
use smartclass.Hass.Access.{credentials, current_token, set_token}
use smartclass.Hass.Filled.{IsFilled}
use smartclass.Hass.Handed.{Keeps, tokens-IsFilled}
use smartclass.Hass.Network.{Network}
use smartclass.Hass.Client.Remote.{client}
use smartclass.Hass.Client.Issued.{client-Issues}

-- From a state in which neither the cached nor the stored credentials have an empty token, Bootstrap,
-- SetToken and CurrentToken lead to such a state again, whatever Home Assistant answers; and
-- Credentials and CurrentToken never answer with an empty token. What other requests do before the
-- lock of a refresh is held, and while the refresh is under way, may be anything that keeps this.
pub tokens_held :
    (net : Network) (cfg : Config) (c : Ctx) (cancelled : ℕ → Bool)
    (between during : Hass (client net) → Hass (client net)) (raw : Text) (h : Hass (client net))
    → Keeps (client net) between
    → Keeps (client net) during
    → IsFilled (client net) h
    → IsFilled (client net) (bootstrap (client net) cfg c h).1
      × IsFilled (client net) (set_token (client net) c raw h).1
      × IsFilled (client net) (current_token (client net) cfg c cancelled between during h).1
      × ((cr : Credentials)
          → (credentials (client net) cfg c cancelled between during h).0 ≡ ok cr
          → is_nil cr.token ≡ false)
      × ((t : Text)
          → (current_token (client net) cfg c cancelled between during h).0 ≡ ok t
          → is_nil t ≡ false)
tokens_held net = tokens-IsFilled (client net) (client-Issues net)
