-- ===== src/Hass/Service.antt =====
-- Bootstrap, BootstrapWithRetry, Credentials, CurrentToken and SetToken of service.go of
-- backend/internal/hass.
use smartclass.Prelude.{
  ℕ, ◌*◌, Bool, true, false, not, ◌&&◌, Option, none, some, List, [], ◌∷◌, nat_eq, if◌then◌else◌,
  ltb,
}
use smartclass.Prelude.Text.{Text, is_nil}
use smartclass.Platform.Errors.{Error, Result, ok, err, not_found, hass_already_onboarded}
use smartclass.Platform.Exec.{Exec, mapping, ◌>>=◌}
use smartclass.Platform.Context.{Ctx}
use smartclass.Hass.Credentials.{
  Credentials, OnboardingStatus, TokenSet, Config, Remote, load, save,
}

-- The service, the row of its table, and Home Assistant
pub record Hass (r : Remote) : Type 0 where
  pub creds : Option Credentials
  pub bootstrap_err : Option Error
  pub row : Option Credentials
  pub remote : r.State

abbrev pub usable : Option Credentials → Option Credentials
usable none = none
usable (some cr) = if is_nil cr.token then none else some cr

module _ (r : Remote) where
  abbrev pub on_remote : {A : Type 0} → Exec r.State A → Exec (Hass r) A
  on_remote m h = ((m h.remote).0, record h { remote = (m h.remote).1 })

  abbrev pub on_row : {A : Type 0} → Exec (Option Credentials) A → Exec (Hass r) A
  on_row m h = ((m h.row).0, record h { row = (m h.row).1 })

  noted_as : {A : Type 0} → Result A → Hass r → Result A × Hass r
  noted_as (ok a) h = (ok a, h)
  noted_as (err e) h = (err e, record h { bootstrap_err = some e })

  -- `s.bootstrapErr = err` before the error is returned
  unfoldable pub noting : {A : Type 0} → Exec (Hass r) A → Exec (Hass r) A
  unfolding noted_as
  noting m h = noted_as (m h).0 (m h).1

  abbrev pub as_onboarded : Result TokenSet → Result TokenSet
  as_onboarded (ok ts) = ok ts
  as_onboarded (err e) = err hass_already_onboarded

  -- The tokens of the owner: those of a login where there is one, else those of a new owner
  unfoldable pub owner_tokens : Config → OnboardingStatus → Exec (Hass r) TokenSet
  owner_tokens cfg st =
      if st.owner_done
      then noting (
          mapping as_onboarded
            (on_remote (r.login_with_password cfg.owner_username cfg.owner_password)))
      else noting (
          on_remote
            (r.create_owner cfg.owner_name cfg.owner_username cfg.owner_password cfg.language))
        >>= λ code. noting (on_remote (r.exchange_code code))

  abbrev pub credentials_of : Ctx → TokenSet → Credentials
  credentials_of c ts = record {
    base_url = r.base_url;
    token = ts.access_token;
    refresh_token = ts.refresh_token;
    expires_at = ts.expires_at;
    onboarded = true;
    updated_at = c.now;
  }

  -- An error of FinishOnboarding is only logged.
  abbrev pub finished : Text → Exec (Hass r) (Unit {0})
  finished token h = (ok tt, (on_remote (r.finish_onboarding token) h).1)

  abbrev pub cached : Credentials → Exec (Hass r) Credentials
  cached cr h = (ok cr, record h { creds = some cr })

  unfoldable pub onboard : Config → Ctx → Exec (Hass r) Credentials
  unfolding owner_tokens
  onboard cfg c = noting (on_remote r.onboarding_status) >>= λ st. owner_tokens cfg st >>= λ ts.
      finished ts.access_token >>= λ _.
      on_row (save c 1 (credentials_of c ts)) >>= λ _. cached (credentials_of c ts)

  abbrev pub pending : Result OnboardingStatus → Bool
  pending (err e) = false
  pending (ok st) = not (st.core_config_done && st.integration_done && st.analytics_done)

  -- A stored token: the remaining steps of the onboarding are resumed.
  unfoldable pub resume : Credentials → Exec (Hass r) Credentials
  resume cr h =
      let asked = on_remote r.onboarding_status (record h { creds = some cr }) in
      (
        ok cr,
        if pending asked.0 then (on_remote (r.finish_onboarding cr.token) asked.1).1 else asked.1,
      )

  abbrev pub after_load : Config → Ctx → Result Credentials → Exec (Hass r) Credentials
  after_load cfg c (ok cr) h = resume cr h
  after_load cfg c (err not_found) h = onboard cfg c h
  after_load cfg c (err e) h = (err e, h)

  unfoldable pub bootstrap : Config → Ctx → Exec (Hass r) Credentials
  unfolding onboard resume
  bootstrap cfg c h = elim (usable h.creds) [
    | some cr ↦ (ok cr, h)
    | none ↦ after_load cfg c (load c h.row) h
  ]

  abbrev is_onboarded : Option Error → Bool
  is_onboarded (some hass_already_onboarded) = true
  is_onboarded e = false

  -- `if delay < maxDelay { delay *= 2; … }`
  unfoldable pub next_delay : ℕ → ℕ
  next_delay delay = if ltb delay 60 then (if ltb 60 (delay * 2) then 60 else delay * 2) else delay

  -- BootstrapWithRetry: the contexts of its attempts up to a cancellation, and the pauses it makes
  unfoldable pub bootstrap_with_retry : Config → List Ctx → ℕ → Hass r → List ℕ × Hass r
  unfolding bootstrap next_delay
  bootstrap_with_retry cfg [] delay h = ([], h)
  bootstrap_with_retry cfg (c ∷ cs) delay h =
      let tried = bootstrap cfg c h in
      let rest = bootstrap_with_retry cfg cs (next_delay delay) tried.1 in
      elim tried.0 [
        | ok cr ↦ ([], tried.1)
        | err e ↦
            if is_onboarded tried.1.bootstrap_err then ([], tried.1) else (delay ∷ rest.0, rest.1)
      ]
