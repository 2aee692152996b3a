-- ===== src/Hass/Client/Tokens.antt =====
-- CreateOwner, ExchangeCode, LoginWithPassword, RefreshAccessToken and tokenRequest of client.go of
-- backend/internal/hass.
use smartclass.Prelude.{
  not, ◌||◌, Option, none, some, List, [], ◌∷◌, ◌++◌, ◌==◌, nat_eq, text_eq, if◌then◌else◌, leb,
}
use smartclass.Prelude.Text.{Text, text, is_nil}
use smartclass.Platform.Errors.{
  Result, ok, err, hass_upstream, hass_onboarding_failed, hass_already_onboarded,
}
use smartclass.Platform.Exec.{Exec, lift, ◌>>=◌}
use smartclass.Hass.Credentials.{TokenSet}
use smartclass.Hass.Network.{Call, Reply, TokenReply, LoginReply, Network, do_call, after_seconds}

abbrev pub oauth_client_id : Text
oauth_client_id = text "https://smartclass.local/"

abbrev pub post : Text → List (Text × Text) → Call
post path fields = record { method = "POST"; path = path; bearer = none; body = some fields }

module _ (net : Network) where
  abbrev auth_code : Option Text → Result Text
  auth_code none = err hass_onboarding_failed
  auth_code (some code) = if is_nil code then err hass_onboarding_failed else ok code

  abbrev owner_made : Reply → Result Text
  owner_made r =
      if r.status == 403
      then err hass_already_onboarded
      else if leb 400 r.status
      then err hass_onboarding_failed
      else auth_code (net.decode_auth_code r.body)

  unfoldable pub create_owner : Text → Text → Text → Text → Exec net.State Text
  create_owner name username password lang =
      do_call net (
        post (text "/api/onboarding/users") (
          (text "client_id", oauth_client_id)
          ∷ (text "name", name)
          ∷ (text "username", username)
          ∷ (text "password", password)
          ∷ (text "language", lang)
          ∷ []))
      >>= λ r. lift (owner_made r)

  abbrev pub token_set : Option TokenReply → Exec net.State TokenSet
  token_set none s = (err hass_onboarding_failed, s)
  token_set (some t) s = if is_nil t.access_token then (err hass_onboarding_failed, s) else (
    ok (record {
      access_token = t.access_token;
      refresh_token = t.refresh_token;
      expires_at = after_seconds net t.expires_in s;
    }),
    s,
  )

  abbrev pub tokens_read : Reply → Exec net.State TokenSet
  tokens_read r s =
      if leb 400 r.status
      then (err hass_onboarding_failed, s)
      else token_set (net.decode_tokens r.body) s

  unfoldable pub token_request : List (Text × Text) → Exec net.State TokenSet
  token_request form = do_call net (post (text "/auth/token") form) >>= λ r. tokens_read r

  unfoldable pub exchange_code : Text → Exec net.State TokenSet
  unfolding token_request
  exchange_code code = token_request (
      (text "grant_type", text "authorization_code")
      ∷ (text "code", code)
      ∷ (text "client_id", oauth_client_id)
      ∷ [])

  abbrev pub kept : Text → Result TokenSet → Result TokenSet
  kept token (err e) = err e
  kept token (ok ts) =
      ok (if is_nil ts.refresh_token then record ts { refresh_token = token } else ts)

  unfoldable pub refresh_access_token : Text → Exec net.State TokenSet
  unfolding token_request
  refresh_access_token token s =
      let asked =
        token_request
          ((text "grant_type", text "refresh_token")
            ∷ (text "refresh_token", token)
            ∷ (text "client_id", oauth_client_id)
            ∷ [])
          s in
      (kept token asked.0, asked.1)

  abbrev flow_opened : Option Text → Result Text
  flow_opened none = err hass_upstream
  flow_opened (some id) = if is_nil id then err hass_upstream else ok id

  abbrev login_code : Option LoginReply → Result Text
  login_code none = err hass_upstream
  login_code (some l) =
      if not (l.type == text "create_entry") || is_nil l.result
      then err hass_onboarding_failed
      else ok l.result

  abbrev unless_refused : {A : Type 0} → Reply → Result A → Result A
  unless_refused r answer = if leb 400 r.status then err hass_upstream else answer

  -- Opens a login flow and submits the credentials to it: the code to exchange
  unfoldable pub log_in : Text → Text → Exec net.State Text
  log_in username password =
      do_call net (
        post (text "/auth/login_flow") (
          (text "client_id", oauth_client_id)
          ∷ (text "handler", text "[\"homeassistant\",null]")
          ∷ (text "redirect_uri", oauth_client_id)
          ∷ []))
      >>= λ opened.
          lift (unless_refused opened (flow_opened (net.decode_login_flow opened.body))) >>= λ id.
          do_call net (
            post (text "/auth/login_flow/" ++ id) (
              (text "username", username)
              ∷ (text "password", password)
              ∷ (text "client_id", oauth_client_id)
              ∷ []))
          >>= λ done. lift (unless_refused done (login_code (net.decode_login done.body)))

  unfoldable pub login_with_password : Text → Text → Exec net.State TokenSet
  unfolding log_in exchange_code
  login_with_password username password = log_in username password >>= λ code. exchange_code code
