-- ===== src/Hass/SelfCheck.antt =====
-- RunSelfCheck of service.go of backend/internal/hass. The texts of the checks are left out.
use smartclass.Prelude.{
  String, Bool, true, false, not, ◌&&◌, ◌||◌, List, [], ◌∷◌, ◌++◌, ◌==◌, text_eq, string_eq,
  if◌then◌else◌,
}
use smartclass.Prelude.Text.{Text, text, is_nil}
use smartclass.Platform.Errors.{Result, ok, err}
use smartclass.Hass.Credentials.{Credentials, OnboardingStatus}
use smartclass.Hass.Network.{Network, FlowStep}
use smartclass.Hass.Client.Onboarding.{finished, onboarding_status}
use smartclass.Hass.Client.Flows.{FlowHandler, list_flow_handlers, start_flow, abort_flow}
use smartclass.Hass.Wizard.{Wizard, Visit, on_net, authenticated}

pub record SelfCheckResult : Type 0 where
  pub name : String
  pub ok : Bool

pub record SelfCheck : Type 0 where
  pub ok : Bool
  pub checks : List SelfCheckResult

-- `add`
abbrev pub add : String → Bool → SelfCheck → SelfCheck
add name passed out = record {
  ok = if passed then out.ok else false;
  checks = out.checks ++ (record { name = name; ok = passed } ∷ []);
}

abbrev onboarded : Result OnboardingStatus → Bool
onboarded (err e) = false
onboarded (ok st) = st.owner_done && finished st

abbrev handlers_of : Result (List FlowHandler) → List FlowHandler
handlers_of (err e) = []
handlers_of (ok hs) = hs

abbrev xiaomi : Text
xiaomi = text "xiaomi_home"

abbrev pub has_xiaomi : List FlowHandler → Bool
has_xiaomi [] = false
has_xiaomi (h ∷ hs) = h.domain == xiaomi || has_xiaomi hs

-- `len(handlers) > 0` where there is no error
abbrev discoverable : List FlowHandler → Bool
discoverable [] = false
discoverable (h ∷ hs) = true

abbrev begun : Result FlowStep → Bool
begun (err e) = false
begun (ok step) = not (is_nil step.flow_id) && not (step.type == text "abort")

module _ (net : Network) where
  -- The probe is aborted where it has an id; the error is dropped.
  unfoldable pub end_probe : Text → Result FlowStep → Wizard net → Wizard net
  end_probe token (err e) w = w
  end_probe token (ok step) w =
      if is_nil step.flow_id then w else (on_net net (abort_flow net token step.flow_id) w).1

  unfoldable pub probe : Bool → Text → SelfCheck × Wizard net → SelfCheck × Wizard net
  unfolding end_probe
  probe false token (out, w) = (out, w)
  probe true token (out, w) =
      let tried = on_net net (start_flow net token xiaomi) w in
      (add "xiaomi_home.startflow" (begun tried.0) out, end_probe token tried.0 tried.1)

  unfoldable pub checked : Result Credentials → Wizard net → SelfCheck × Wizard net
  unfolding probe
  checked (err e) w = (add "credentials" false (record { ok = true; checks = [] }), w)
  checked (ok cr) w =
      let asked = on_net net (onboarding_status net) w in
      let listed = on_net net (list_flow_handlers net cr.token) asked.1 in
      let handlers = handlers_of listed.0 in
      probe (has_xiaomi handlers) cr.token (
        add "xiaomi_home" (has_xiaomi handlers) (
            add "flow_handlers" (discoverable handlers) (
              add "onboarding" (onboarded asked.0)
                (add "credentials" true (record { ok = true; checks = [] })))),
        listed.1,
      )

  -- RunSelfCheck
  unfoldable pub run_self_check : Visit net → Wizard net → SelfCheck × Wizard net
  unfolding checked
  run_self_check v w = checked (authenticated net v w).0 (authenticated net v w).1
