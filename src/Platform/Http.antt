-- ===== src/Platform/Http.antt =====
-- errors.go and response.go of backend/internal/platform/httpx, with the codes and statuses of the
-- domain errors of the packages. The texts of messages, and the details of an upstream's answer, are
-- left out.
use smartclass.Prelude.{ℕ, String, Option, none, some}
use smartclass.Platform.Errors.{
  Error, bad_request, unauthorized, forbidden, ws_ticket_required, ws_ticket_invalid,
  validation_failed, invalid_credentials, email_taken, invalid_refresh, user_not_found,
  password_mismatch, weak_password, classroom_not_found, classroom_forbidden, lesson_not_found,
  lesson_overlaps, invalid_time, device_not_found, unknown_driver, command_failed,
  unsupported_command, scene_not_found, step_failed, notification_not_found, invalid_metric,
  hass_not_configured, hass_already_onboarded, hass_onboarding_failed, hass_upstream,
  flow_not_found, invalid_bucket,
}

-- HTTPStatus and Code of a DomainError, and of the errors of the validation; none for others
unfoldable pub domain_error : Error → Option (ℕ × String)
domain_error bad_request = some (400, "bad_request")
domain_error unauthorized = some (401, "unauthorized")
domain_error forbidden = some (403, "forbidden")
domain_error ws_ticket_required = some (401, "ws_ticket_required")
domain_error ws_ticket_invalid = some (401, "ws_ticket_invalid")
domain_error validation_failed = some (400, "validation_failed")
domain_error invalid_credentials = some (401, "invalid_credentials")
domain_error email_taken = some (409, "email_taken")
domain_error invalid_refresh = some (401, "invalid_refresh")
domain_error user_not_found = some (404, "user_not_found")
domain_error password_mismatch = some (400, "password_mismatch")
domain_error weak_password = some (400, "weak_password")
domain_error classroom_not_found = some (404, "classroom_not_found")
domain_error classroom_forbidden = some (403, "classroom_forbidden")
domain_error lesson_not_found = some (404, "lesson_not_found")
domain_error lesson_overlaps = some (409, "lesson_overlaps")
domain_error invalid_time = some (400, "invalid_time")
domain_error device_not_found = some (404, "device_not_found")
domain_error unknown_driver = some (400, "unknown_driver")
domain_error command_failed = some (502, "device_command_failed")
domain_error unsupported_command = some (400, "unsupported_command")
domain_error scene_not_found = some (404, "scene_not_found")
domain_error step_failed = some (502, "scene_step_failed")
domain_error notification_not_found = some (404, "notification_not_found")
domain_error invalid_metric = some (400, "invalid_metric")
domain_error hass_not_configured = some (503, "hass_not_configured")
domain_error hass_already_onboarded = some (409, "hass_already_onboarded")
domain_error hass_onboarding_failed = some (502, "hass_onboarding_failed")
domain_error hass_upstream = some (502, "hass_upstream")
domain_error flow_not_found = some (404, "hass_flow_not_found")
domain_error invalid_bucket = some (400, "invalid_bucket")
domain_error e = none

-- The status and the envelope: data, or the code of an error
pub record Response (A : Type 0) : Type 0 where
  pub status : ℕ
  pub body : Option A
  pub error : Option String

module _ {A : Type 0} where
  -- JSON and Empty
  abbrev pub json : ℕ → A → Response A
  json status a = record { status = status; body = some a; error = none }

  abbrev pub empty : ℕ → Response A
  empty status = record { status = status; body = none; error = none }

  -- Fail
  abbrev pub fail : ℕ × String → Response A
  fail (status, code) = record { status = status; body = none; error = some code }

  abbrev failure : Option (ℕ × String) → Response A
  failure none = fail (500, "internal_error")
  failure (some coded) = fail coded

  -- WriteError
  unfoldable pub write_error : Error → Response A
  unfolding domain_error
  write_error e = failure (domain_error e)
