-- ===== src/Platform/Errors.antt =====
-- The domain errors of the services (httpx.NewDomainError in each package), the sentinel errors
-- of the repositories, and `internal` for every other error that the database or a library returns.
use smartclass.Prelude.{Bool, true, false, ◌≡◌, refl, ◌⊎◌, inl, inr}

pub data Error : Type 0 where
  -- httpx
  bad_request unauthorized forbidden ws_ticket_required ws_ticket_invalid : Error
  validation_failed : Error
  -- auth
  invalid_credentials email_taken invalid_refresh : Error
  refresh_unknown refresh_already_used invalid_token : Error
  -- user
  user_not_found password_mismatch weak_password : Error
  -- classroom
  classroom_not_found classroom_forbidden : Error
  -- schedule
  lesson_not_found lesson_overlaps invalid_time : Error
  -- device, devicectl
  device_not_found unknown_driver command_failed unsupported_command driver_not_found : Error
  -- scene
  scene_not_found step_failed : Error
  -- notification
  notification_not_found : Error
  -- sensor
  invalid_metric : Error
  -- hass
  hass_not_configured hass_already_onboarded hass_onboarding_failed : Error
  hass_upstream flow_not_found invalid_flow_id : Error
  -- analytics
  invalid_bucket : Error
  -- ws
  ticket_unknown : Error
  -- ErrNotFound and ErrConflict of the repositories
  not_found conflict : Error
  internal : Error

pub data Result {ℓ} (A : Type ℓ) : Type ℓ where
  ok : A → Result A
  err : Error → Result A

-- `if cond { return nil, e }`
abbrev pub reject_if : Bool → Error → Result (Unit {0})
reject_if true e = err e
reject_if false e = ok tt

abbrev pub is_ok {ℓ} : {A : Type ℓ} → Result A → Bool
is_ok (ok a) = true
is_ok (err e) = false

infixl 5 ◌>>=◌ ◌>>◌
abbrev pub ◌>>=◌ {ℓ κ} : {A : Type ℓ} {B : Type κ} (r : Result A) (f : A → Result B) → Result B
err x >>= f = err x
ok a >>= f = f a

abbrev pub ◌>>◌ {ℓ} : {B : Type ℓ} (checked : Result (Unit {0})) (r : Result B) → Result B
checked >> r = checked >>= λ u. r

-- `if errors.Is(err, ErrNotFound) { return nil, e }`, and the other errors as they are
abbrev pub not_found_as {ℓ} : {A : Type ℓ} → Error → Result A → Result A
not_found_as e (err not_found) = err e
not_found_as e r = r

-- `if errors.Is(err, ErrConflict) { return nil, e }`
abbrev pub conflict_as {ℓ} : {A : Type ℓ} → Error → Result A → Result A
conflict_as e (err conflict) = err e
conflict_as e r = r

-- To split on a computed result and keep the equation.
pub Result-cases {ℓ} :
    {A : Type ℓ} (r : Result A) → ((a : A) × (r ≡ ok a)) ⊎ ((e : Error) × (r ≡ err e))
Result-cases (ok a) = inl (a, refl)
Result-cases (err e) = inr (e, refl)
