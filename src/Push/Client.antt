-- ===== src/Push/Client.antt =====
-- Send of client.go of backend/internal/pushnotif. OAuth, HTTP and JSON are parameters.
use smartclass.Prelude.{
  ℕ, Bool, true, false, ◌&&◌, ◌||◌, Option, none, some, [], ◌∷◌, ◌==◌, nat_eq, if◌then◌else◌,
}
use smartclass.Prelude.Text.{Text, text}
use smartclass.Platform.Errors.{Result, ok, err}
use smartclass.Realtime.Events.{strip_prefix}

pub record Payload : Type 0 where
  pub title : Text
  pub body : Text

-- What Send returns: nil, ErrInvalidToken or another error.
pub data Verdict : Type 0 where
  sent invalid failed : Verdict

-- The configuration of the client, and the answer of Firebase to a request: its status and its body,
-- or none where the request fails.
pub record Firebase : Type 0 where
  pub is_noop : Bool
  pub access_token : Result Text
  pub marshal : Text → Payload → Option Text
  pub post : Text → Text → Option (ℕ × Text)

abbrev has : Option Text → Bool
has none = false
has (some t) = true

-- strings.Contains
unfoldable pub contains : Text → Text → Bool
contains [] p = has (strip_prefix [] p)
contains (c ∷ cs) p = let rest = contains cs p in has (strip_prefix (c ∷ cs) p) || rest

unfoldable pub verdict_of : ℕ × Text → Verdict
unfolding contains
verdict_of r =
    if r.0 == 200
    then sent
    else if r.0 == 404 || (r.0 == 400 && contains r.1 (text "INVALID_ARGUMENT"))
    then invalid
    else failed

abbrev answered_by : Firebase → Text → Option Text → Verdict
answered_by f access none = failed
answered_by f access (some body) = elim (f.post access body) [
  | none ↦ failed
  | some r ↦ verdict_of r
]

unfoldable pub send_push : Firebase → Text → Payload → Verdict
unfolding verdict_of
send_push f token p = if f.is_noop then sent else elim f.access_token [
  | err e ↦ failed
  | ok access ↦ answered_by f access (f.marshal token p)
]
