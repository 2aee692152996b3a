-- ===== src/Hass/Credentials.antt =====
-- hass.go, repo.go and postgres.go of backend/internal/hass, and the calls that its service makes of
-- the client of Home Assistant.
use smartclass.Prelude.{ℕ, ◌+◌, Bool, false, Option, none, some, ◌==◌, nat_eq, if◌then◌else◌, ltb}
use smartclass.Prelude.Text.{Text}
use smartclass.Platform.Errors.{Result, ok, err, not_found, internal}
use smartclass.Platform.Exec.{Exec}
use smartclass.Platform.Context.{Ctx, query}

-- A zero time is 0.
pub record Credentials : Type 0 where
  pub base_url : Text
  pub token : Text
  pub refresh_token : Text
  pub expires_at : ℕ
  pub onboarded : Bool
  pub updated_at : ℕ

-- NeedsRefresh, at a time
unfoldable pub needs_refresh : ℕ → Credentials → Bool
needs_refresh now cr = if cr.expires_at == 0 then false else ltb cr.expires_at (now + 60)

pub record OnboardingStatus : Type 0 where
  pub owner_done : Bool
  pub core_config_done : Bool
  pub integration_done : Bool
  pub analytics_done : Bool

pub record TokenSet : Type 0 where
  pub access_token : Text
  pub refresh_token : Text
  pub expires_at : ℕ

pub record Config : Type 0 where
  pub owner_name : Text
  pub owner_username : Text
  pub owner_password : Text
  pub language : Text

-- The methods of the client, on a Home Assistant in some state
pub record Remote : Type 1 where
  pub State : Type 0
  pub base_url : Text
  pub onboarding_status : Exec State OnboardingStatus
  pub finish_onboarding : Text → Exec State (Unit {0})
  pub login_with_password : Text → Text → Exec State TokenSet
  pub create_owner : Text → Text → Text → Text → Exec State Text
  pub exchange_code : Text → Exec State TokenSet
  pub refresh_access_token : Text → Exec State TokenSet
  pub list_entities : Text → Exec State (Unit {0})

-- The one row of the table `hass_config`
abbrev row_or_none : Option Credentials → Result Credentials
row_or_none none = err not_found
row_or_none (some cr) = ok cr

unfoldable pub load : Ctx → Option Credentials → Result Credentials
load c row = query c "hass.Load" 0 (row_or_none row)

abbrev pub stamped : Ctx → Credentials → Credentials
stamped c cr = record cr { updated_at = if cr.updated_at == 0 then c.now else cr.updated_at }

-- Save; a request that saves more than once counts its attempts.
unfoldable pub save : Ctx → ℕ → Credentials → Exec (Option Credentials) (Unit {0})
save c attempt cr row =
    if c.fails "hass.Save" attempt then (err internal, row) else (ok tt, some (stamped c cr))
