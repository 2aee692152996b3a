-- ===== src/Hass/Client/Onboarding.antt =====
-- OnboardingStatus, FinishOnboarding and postOnboardingStep of client.go of backend/internal/hass.
use smartclass.Prelude.{
  ℕ, zero, suc, Bool, true, false, not, ◌&&◌, ◌||◌, Option, none, some, List, [], ◌∷◌, ◌++◌, ◌==◌,
  nat_eq, text_eq, if◌then◌else◌, leb,
}
use smartclass.Prelude.Text.{Text, text, has_prefix}
use smartclass.Platform.Errors.{Result, ok, err, internal, hass_upstream, hass_onboarding_failed}
use smartclass.Platform.Exec.{Exec, lift, ◌>>=◌}
use smartclass.Hass.Credentials.{OnboardingStatus}
use smartclass.Hass.Network.{Call, Reply, Network, do_call}
use smartclass.Hass.Client.Tokens.{oauth_client_id}

abbrev none_done : OnboardingStatus
none_done = record {
  owner_done = false;
  core_config_done = false;
  integration_done = false;
  analytics_done = false;
}

abbrev every_done : OnboardingStatus
every_done = record {
  owner_done = true;
  core_config_done = true;
  integration_done = true;
  analytics_done = true;
}

-- The loop over the steps: the last entry of a name counts.
unfoldable pub read_steps : List (Text × Bool) → OnboardingStatus → OnboardingStatus
read_steps [] out = out
read_steps ((step, done) ∷ steps) out = read_steps steps (
    if step == text "user"
    then record out { owner_done = done }
    else if step == text "core_config"
    then record out { core_config_done = done }
    else if step == text "integration"
    then record out { integration_done = done }
    else if step == text "analytics"
    then record out { analytics_done = done }
    else out)

abbrev contains : Text → Text → Bool
contains [] part = has_prefix [] part
contains (c ∷ s) part = has_prefix (c ∷ s) part || contains s part

abbrev pub finished : OnboardingStatus → Bool
finished st = st.core_config_done && st.integration_done && st.analytics_done

-- What an attempt comes to: all done, or whether `lastErr` is nil.
pub data Attempt : Type 0 where
  complete : Attempt
  over : Bool → Attempt

module _ (net : Network) where
  abbrev decoded : Option (List (Text × Bool)) → Result OnboardingStatus
  decoded none = err hass_upstream
  decoded (some steps) = ok (read_steps steps none_done)

  -- The route is gone once onboarding is complete.
  abbrev status_of : Reply → Result OnboardingStatus
  status_of r =
      if r.status == 404
      then ok every_done
      else if leb 400 r.status
      then err hass_upstream
      else decoded (net.decode_onboarding r.body)

  unfoldable pub onboarding_status : Exec net.State OnboardingStatus
  onboarding_status =
      do_call net
        (record { method = "GET"; path = text "/api/onboarding"; bearer = none; body = none })
      >>= λ r. lift (status_of r)

  -- A step that Home Assistant calls unknown has been done.
  abbrev step_taken : Reply → Bool
  step_taken r = (r.status == 403 && contains r.body (text "unknown")) || not (leb 400 r.status)

  -- Whether the step returned no error
  unfoldable pub post_onboarding_step :
      Text → Text → List (Text × Text) → net.State → Bool × net.State
  post_onboarding_step token path fields s =
      let call : Call = record {
        method = "POST";
        path = path;
        bearer = some token;
        body = some fields;
      } in
      (elim (net.send call s).0 [ none ↦ false | some r ↦ step_taken r ], (net.send call s).1)

  -- A step that is not done yet; `clean` says that there was no error so far.
  unfoldable pub unless_done :
      Bool → Text → Text → List (Text × Text) → Bool × net.State → Bool × net.State
  unless_done true token path fields (clean, s) = (clean, s)
  unless_done false token path fields (clean, s) =
      let posted = post_onboarding_step token path fields s in (clean && posted.0, posted.1)

  -- The steps of one attempt that are still to do
  unfoldable pub post_steps : Text → OnboardingStatus → net.State → Bool × net.State
  unfolding unless_done
  post_steps token st s =
      unless_done st.analytics_done token (text "/api/onboarding/analytics")
        ((
          text "preferences",
          text "{\"base\":false,\"diagnostics\":false,\"usage\":false,\"statistics\":false}",
        )
          ∷ [])
        (unless_done st.integration_done token (text "/api/onboarding/integration")
          ((text "client_id", oauth_client_id)
            ∷ (text "redirect_uri", oauth_client_id ++ text "auth_callback.html")
            ∷ [])
          (unless_done st.core_config_done token (text "/api/onboarding/core_config") [] (true, s)))

  abbrev posted_steps : Bool × net.State → Attempt × net.State
  posted_steps (clean, s) = (over clean, s)

  abbrev attempt_on : Text → Result OnboardingStatus → net.State → Attempt × net.State
  attempt_on token (err e) s = (over false, s)
  attempt_on token (ok st) s =
      if finished st then (complete, s) else posted_steps (post_steps token st s)

  unfoldable pub attempt : Text → net.State → Attempt × net.State
  unfolding onboarding_status post_steps
  attempt token s = attempt_on token (onboarding_status s).0 (onboarding_status s).1

  abbrev final : Result OnboardingStatus → Result (Unit {0})
  final (err e) = err hass_onboarding_failed
  final (ok st) = if finished st then ok tt else err hass_onboarding_failed

  -- After the last attempt: one more look, if that attempt had no error.
  unfoldable pub last_look : Bool → Exec net.State (Unit {0})
  unfolding onboarding_status
  last_look false s = (err hass_onboarding_failed, s)
  last_look true s = (final (onboarding_status s).0, (onboarding_status s).1)

  -- What follows an attempt; a cancellation during the pause after it ends them.
  unfoldable pub after_attempt :
      (Bool → Exec net.State (Unit {0})) → Attempt → Exec net.State (Unit {0})
  after_attempt rest complete s = (ok tt, s)
  after_attempt rest (over clean) s = if net.cancelled s then (err internal, s) else rest clean s

  -- The attempts that are left
  unfoldable pub finish_from : ℕ → Text → Bool → Exec net.State (Unit {0})
  unfolding attempt last_look after_attempt
  finish_from zero token clean s = last_look clean s
  finish_from (suc left) token clean s =
      after_attempt (finish_from left token) (attempt token s).0 (attempt token s).1

  -- FinishOnboarding: five attempts
  unfoldable pub finish_onboarding : Text → Exec net.State (Unit {0})
  unfolding finish_from
  finish_onboarding token = finish_from 5 token true
