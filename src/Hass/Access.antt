-- ===== src/Hass/Access.antt =====
-- Credentials, CurrentToken and SetToken of service.go of backend/internal/hass.
use smartclass.Prelude.{
  ℕ, zero, suc, ◌+◌, Bool, true, false, not, Option, none, some, [], if◌then◌else◌,
}
use smartclass.Prelude.Text.{Text, is_nil, trim_space}
use smartclass.Platform.Errors.{Result, ok, err, internal, hass_not_configured, reject_if}
use smartclass.Platform.Exec.{Exec, lift, ◌>>=◌}
use smartclass.Platform.Context.{Ctx}
use smartclass.Hass.Credentials.{Credentials, needs_refresh, TokenSet, Config, Remote, save}
use smartclass.Hass.Service.{Hass, on_remote, on_row, bootstrap}

-- What a look at the cached credentials tells: that there are none, that they serve, or the token
-- to refresh them with.
pub data Look : Type 0 where
  absent : Look
  live : Credentials → Look
  expired : Text → Look

abbrev pub look : Bool → ℕ → Option Credentials → Look
look first now none = absent
look first now (some cr) =
    if is_nil cr.token
    then absent
    else if not (needs_refresh now cr)
    then live cr
    else if first
    then (if is_nil cr.refresh_token then live cr else expired cr.refresh_token)
    else expired cr.refresh_token

module _ (r : Remote) where
  abbrev pub refreshed : Ctx → TokenSet → Credentials → Credentials
  refreshed c ts cr = record cr {
    token = ts.access_token;
    refresh_token = ts.refresh_token;
    expires_at = ts.expires_at;
    updated_at = c.now;
  }

  -- `bootstrapErr = saveErr` after the last attempt
  abbrev pub given_up : Hass r → Hass r
  given_up h = record h { bootstrap_err = some internal }

  -- The attempts to save from the given one on, of which there are `left`; a context that is
  -- cancelled during a pause ends them.
  unfoldable pub persist : Ctx → (ℕ → Bool) → ℕ → ℕ → Credentials → Hass r → Hass r
  persist c cancelled attempt zero cr h = given_up h
  persist c cancelled attempt (suc left) cr h =
      let saved = on_row r (save c attempt cr) h in
      let rest = persist c cancelled (attempt + 1) left cr h in
      elim saved.0 [
        | ok u ↦ saved.1
        | err e ↦ elim left [ zero ↦ given_up h | suc more ↦ if cancelled attempt then h else rest ]
      ]

  -- Without cached credentials the source would panic here; no method takes them away.
  abbrev pub stored : Ctx → (ℕ → Bool) → TokenSet → Option Credentials → Exec (Hass r) Credentials
  stored c cancelled ts none h = (err internal, h)
  stored c cancelled ts (some cr) h = (
    ok (refreshed c ts cr),
    persist c cancelled 1 4 (refreshed c ts cr) (record h { creds = some (refreshed c ts cr) }),
  )

  abbrev pub after_refresh :
      Ctx → (ℕ → Bool) → (Hass r → Hass r) → Result TokenSet → Exec (Hass r) Credentials
  after_refresh c cancelled during (err e) h = (err e, h)
  after_refresh c cancelled during (ok ts) h =
      let h' = during h in stored c cancelled ts h'.creds h'

  -- What runs under refreshMu; `during` is what others do while the refresh is under way.
  unfoldable pub refresh_section :
      Config → Ctx → (ℕ → Bool) → (Hass r → Hass r) → Exec (Hass r) Credentials
  unfolding persist
  refresh_section cfg c cancelled during h = elim (look false c.now h.creds) [
    | absent ↦ bootstrap r cfg c h
    | live cr ↦ (ok cr, h)
    | expired token ↦
        let asked = on_remote r (r.refresh_access_token token) h in
        after_refresh c cancelled during asked.0 asked.1
  ]

  -- Credentials; `between` is what others do before the lock is held.
  unfoldable pub credentials :
      Config → Ctx → (ℕ → Bool) → (Hass r → Hass r) → (Hass r → Hass r) → Exec (Hass r) Credentials
  unfolding refresh_section
  credentials cfg c cancelled between during h = elim (look true c.now h.creds) [
    | absent ↦ bootstrap r cfg c h
    | live cr ↦ (ok cr, h)
    | expired token ↦ refresh_section cfg c cancelled during (between h)
  ]

  abbrev pub token_of : Result Credentials → Result Text
  token_of (ok cr) = ok cr.token
  token_of (err e) = err e

  unfoldable pub current_token :
      Config → Ctx → (ℕ → Bool) → (Hass r → Hass r) → (Hass r → Hass r) → Exec (Hass r) Text
  unfolding credentials
  current_token cfg c cancelled between during h =
      let got = credentials cfg c cancelled between during h in (token_of got.0, got.1)

  abbrev pub manual : Ctx → Text → Credentials
  manual c token = record {
    base_url = r.base_url;
    token = token;
    refresh_token = [];
    expires_at = 0;
    onboarded = true;
    updated_at = c.now;
  }

  abbrev pub accepted : Credentials → Exec (Hass r) (Unit {0})
  accepted cr h = (ok tt, record h { creds = some cr; bootstrap_err = none })

  unfoldable pub set_token : Ctx → Text → Exec (Hass r) (Unit {0})
  set_token c raw =
      let token = trim_space raw in
      lift (reject_if (is_nil token) hass_not_configured) >>= λ _.
      on_remote r (r.list_entities token) >>= λ _.
      on_row r (save c 1 (manual c token)) >>= λ _. accepted (manual c token)
