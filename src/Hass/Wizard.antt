-- ===== src/Hass/Wizard.antt =====
-- The pairing of devices in service.go of backend/internal/hass: StartFlow with what it remembers and
-- scrubs, StepFlow, AbortFlow, ListIntegrations, ListEntities, Status and NewService. A request is
-- taken whole, but for what others do around a refresh of the token.
use smartclass.Prelude.{
  ℕ, Bool, true, false, not, ◌&&◌, ◌||◌, Option, none, some, List, [], ◌∷◌, ◌==◌, text_eq,
  if◌then◌else◌, keep,
}
use smartclass.Prelude.Dict.{Dict, get, put, remove}
use smartclass.Prelude.Text.{Text, text, is_nil}
use smartclass.Platform.Errors.{Result, ok, err}
use smartclass.Platform.Exec.{Exec, ◌>>=◌}
use smartclass.Platform.Context.{Ctx}
use smartclass.Hass.Credentials.{Credentials, Config}
use smartclass.Hass.Service.{Hass}
use smartclass.Hass.Access.{credentials}
use smartclass.Hass.Network.{Network, FlowStep}
use smartclass.Hass.Client.Remote.{client}
use smartclass.Hass.Client.Flows.{
  FlowHandler, Entity, list_flow_handlers, start_flow, step_flow, abort_flow, list_entities,
}
use smartclass.Hass.Client.Progress.{FlowProgress, list_in_progress_flows}

-- NewService: what stands in for an empty setting
unfoldable pub new_config : Config → Config
new_config cfg = record cfg {
  owner_name = if is_nil cfg.owner_name then text "Smart Classroom" else cfg.owner_name;
  owner_username = if is_nil cfg.owner_username then text "smartclass" else cfg.owner_username;
  language = if is_nil cfg.language then text "en" else cfg.language;
}

abbrev pub text_or_empty : Option Text → Text
text_or_empty none = []
text_or_empty (some t) = t

unfoldable pub supported_domain : Text → Bool
supported_domain d =
    d == text "switch"
    || d == text "light"
    || d == text "cover"
    || d == text "lock"
    || d == text "climate"
    || d == text "fan"

abbrev already_running : Result FlowStep → Bool
already_running (err e) = false
already_running (ok step) = step.type == text "abort" && step.reason == text "already_in_progress"

module _ (net : Network) where
  -- The service with `lastFlowByHandler`
  pub record Wizard : Type 0 where
    pub hass : Hass (client net)
    pub last_flow : Dict Text Text

  -- A request: its context, the attempts to save during which it is cancelled, and what others do
  -- before the lock of a refresh is held and while the refresh is under way.
  pub record Visit : Type 0 where
    pub cfg : Config
    pub ctx : Ctx
    pub cancelled : ℕ → Bool
    pub between : Hass (client net) → Hass (client net)
    pub during : Hass (client net) → Hass (client net)

  abbrev pub on_net : {A : Type 0} → Exec net.State A → Exec Wizard A
  on_net m w =
      ((m w.hass.remote).0, record w { hass = record w.hass { remote = (m w.hass.remote).1 } })

  abbrev pub authenticated : Visit → Exec Wizard Credentials
  authenticated v w =
      let got = credentials (client net) v.cfg v.ctx v.cancelled v.between v.during w.hass in
      (got.0, record w { hass = got.1 })

  unfoldable pub remember_flow : Text → Text → Wizard → Wizard
  remember_flow handler id w = record w { last_flow = put w.last_flow handler id }

  unfoldable pub pop_last_flow : Text → Wizard → Text × Wizard
  pop_last_flow handler w =
      (text_or_empty (get w.last_flow handler), record w { last_flow = remove w.last_flow handler })

  -- Errors are only logged.
  unfoldable pub abort_quietly : Text → Text → Wizard → Wizard
  abort_quietly token id w = (on_net (abort_flow net token id) w).1

  unfoldable pub abort_if : Bool → Text → Text → Wizard → Wizard
  unfolding abort_quietly
  abort_if false token id w = w
  abort_if true token id w = abort_quietly token id w

  -- The loop over the flows in progress
  unfoldable pub abort_matching : Text → Text → List FlowProgress → Wizard → Wizard
  unfolding abort_if
  abort_matching token handler [] w = w
  abort_matching token handler (f ∷ fs) w =
      abort_matching token handler fs (abort_if (f.handler == handler) token f.flow_id w)

  unfoldable pub abort_listed : Text → Text → Result (List FlowProgress) → Wizard → Wizard
  unfolding abort_matching
  abort_listed token handler (err e) w = w
  abort_listed token handler (ok flows) w = abort_matching token handler flows w

  -- The flow of the last StartFlow, where there is one
  unfoldable pub abort_last : Text → Text × Wizard → Wizard
  unfolding abort_if
  abort_last token (prev, w) = abort_if (not (is_nil prev)) token prev w

  unfoldable pub scrub_flows : Text → Text → Wizard → Wizard
  unfolding pop_last_flow abort_last abort_listed
  scrub_flows token handler w =
      let w' = abort_last token (pop_last_flow handler w) in
      let listed = on_net (list_in_progress_flows net token) w' in
      abort_listed token handler listed.0 listed.1

  -- Where Home Assistant says that a flow is running, a second start after another scrub
  unfoldable pub retried : Bool → Text → Text → Result FlowStep × Wizard → Result FlowStep × Wizard
  unfolding scrub_flows
  retried false token handler first = first
  retried true token handler first =
      on_net (start_flow net token handler) (scrub_flows token handler first.1)

  unfoldable pub started : Text → Text → Exec Wizard FlowStep
  unfolding retried
  started token handler w =
      let first = on_net (start_flow net token handler) (scrub_flows token handler w) in
      retried (already_running first.0) token handler first

  unfoldable pub remembered : Text → Result FlowStep → Wizard → Wizard
  unfolding remember_flow
  remembered handler (err e) w = w
  remembered handler (ok step) w =
      if is_nil step.flow_id then w else remember_flow handler step.flow_id w

  abbrev pub noted : Text → Result FlowStep × Wizard → Result FlowStep × Wizard
  noted handler (step, w) = (step, remembered handler step w)

  -- StartFlow
  unfoldable pub start : Visit → Text → Exec Wizard FlowStep
  unfolding started remembered
  start v handler = authenticated v >>= λ cr w. noted handler (started cr.token handler w)

  -- StepFlow
  unfoldable pub step : Visit → Text → List (Text × Text) → Exec Wizard FlowStep
  step v id fields = authenticated v >>= λ cr. on_net (step_flow net cr.token id fields)

  -- AbortFlow
  unfoldable pub abort : Visit → Text → Exec Wizard (Unit {0})
  abort v id = authenticated v >>= λ cr. on_net (abort_flow net cr.token id)

  unfoldable pub list_integrations : Visit → Exec Wizard (List FlowHandler)
  list_integrations v = authenticated v >>= λ cr. on_net (list_flow_handlers net cr.token)

  -- ListEntities
  unfoldable pub entities : Visit → Exec Wizard (List Entity)
  unfolding supported_domain
  entities v = authenticated v >>= λ cr. on_net (list_entities net cr.token) >>= λ all w.
      (ok (keep (λ e. supported_domain e.domain) all), w)

  pub record Status : Type 0 where
    pub base_url : Text
    pub configured : Bool
    pub onboarded : Bool

  abbrev status_of : Result Credentials → Status
  status_of (err e) = record { base_url = net.base_url; configured = false; onboarded = false }
  status_of (ok cr) = record { base_url = cr.base_url; configured = true; onboarded = cr.onboarded }

  unfoldable pub status : Visit → Wizard → Status × Wizard
  status v w = (status_of (authenticated v w).0, (authenticated v w).1)
