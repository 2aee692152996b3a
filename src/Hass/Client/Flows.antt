-- ===== src/Hass/Client/Flows.antt =====
-- requestJSON, ListFlowHandlers, StartFlow, StepFlow, AbortFlow and ListEntities of client.go of
-- backend/internal/hass.
use smartclass.Prelude.{
  ℕ, String, Bool, true, not, ◌&&◌, ◌||◌, Option, none, some, List, [], ◌∷◌, ◌++◌, ◌==◌, nat_eq,
  if◌then◌else◌, leb, map, length,
}
use smartclass.Prelude.Text.{Text, text, is_nil}
use smartclass.Platform.Errors.{
  Result, ok, err, hass_upstream, flow_not_found, invalid_flow_id, reject_if,
}
use smartclass.Platform.Exec.{Exec, lift, ◌>>=◌}
use smartclass.Hass.Network.{Call, Reply, FlowStep, HaState, Network, do_call}

-- [A-Za-z0-9_-]
unfoldable pub flow_id_char : ℕ → Bool
flow_id_char c =
    (leb b'A' c && leb c b'Z')
    || (leb b'a' c && leb c b'z')
    || (leb b'0' c && leb c b'9')
    || c == b'_'
    || c == b'-'

abbrev pub every : (ℕ → Bool) → Text → Bool
every p [] = true
every p (c ∷ cs) = p c && every p cs

-- flowIDPattern.MatchString
unfoldable pub flow_id_valid : Text → Bool
flow_id_valid id = leb 1 (length id) && leb (length id) 128 && every flow_id_char id

pub record FlowHandler : Type 0 where
  pub domain : Text
  pub name : Text
  pub config_flow : Bool

pub record Entity : Type 0 where
  pub entity_id : Text
  pub state : Text
  pub domain : Text
  pub friendly_name : Text

-- `if i := strings.IndexByte(s, '.'); i >= 0 { s = s[:i] }`
unfoldable pub upto_dot : Text → Text
upto_dot [] = []
upto_dot (c ∷ cs) = let rest = upto_dot cs in if c == b'.' then [] else c ∷ rest

abbrev text_or_empty : Option Text → Text
text_or_empty none = []
text_or_empty (some t) = t

unfoldable pub entity_of : HaState → Entity
unfolding upto_dot
entity_of s = record {
  entity_id = s.entity_id;
  state = s.state;
  domain = upto_dot s.entity_id;
  friendly_name = text_or_empty s.friendly_name;
}

-- The zero value of a FlowStep
abbrev no_step : FlowStep
no_step = record { flow_id = []; handler = []; type = []; step_id = []; reason = [] }

abbrev decoded_or : {A : Type 0} → Option A → Result A
decoded_or none = err hass_upstream
decoded_or (some a) = ok a

-- The reply of requestJSON: the zero value for an empty body, else what the decoder reads.
abbrev reply_as : {A : Type 0} → (Text → Option A) → A → Reply → Result A
reply_as decode zero_value r =
    if r.status == 404
    then err flow_not_found
    else if leb 400 r.status
    then err hass_upstream
    else if is_nil r.body
    then ok zero_value
    else decoded_or (decode r.body)

abbrev authorized : String → Text → Text → Option (List (Text × Text)) → Call
authorized method token path body = record {
  method = method;
  path = path;
  bearer = some token;
  body = body;
}

abbrev pub flows_path : Text
flows_path = text "/api/config/config_entries/flow/"

module _ (net : Network) where
  unfoldable pub request_json : {A : Type 0} → (Text → Option A) → A → Call → Exec net.State A
  request_json decode zero_value call =
      do_call net call >>= λ r. lift (reply_as decode zero_value r)

  abbrev handler_of : Text → FlowHandler
  handler_of d = record { domain = d; name = d; config_flow = true }

  unfoldable pub list_flow_handlers : Text → Exec net.State (List FlowHandler)
  unfolding request_json
  list_flow_handlers token =
      request_json net.decode_domains []
        (authorized "GET" token (text "/api/config/config_entries/flow_handlers") none)
      >>= λ domains. lift (ok (map handler_of domains))

  unfoldable pub start_flow : Text → Text → Exec net.State FlowStep
  unfolding request_json
  start_flow token handler = request_json net.decode_step no_step (
      authorized "POST" token (text "/api/config/config_entries/flow")
        (some ((text "handler", handler) ∷ (text "show_advanced_options", text "false") ∷ [])))

  abbrev pub step_call : Text → Text → List (Text × Text) → Call
  step_call token id fields = authorized "POST" token (flows_path ++ id) (some fields)

  unfoldable pub step_flow : Text → Text → List (Text × Text) → Exec net.State FlowStep
  unfolding request_json flow_id_valid
  step_flow token id fields = lift (reject_if (not (flow_id_valid id)) invalid_flow_id) >>= λ _.
      request_json net.decode_step no_step (step_call token id fields)

  abbrev aborted : Reply → Result (Unit {0})
  aborted r =
      if r.status == 404
      then err flow_not_found
      else if leb 400 r.status
      then err hass_upstream
      else ok tt

  abbrev pub abort_call : Text → Text → Call
  abort_call token id = authorized "DELETE" token (flows_path ++ id) none

  unfoldable pub abort_flow : Text → Text → Exec net.State (Unit {0})
  unfolding flow_id_valid
  abort_flow token id = lift (reject_if (not (flow_id_valid id)) invalid_flow_id) >>= λ _.
      do_call net (abort_call token id) >>= λ r. lift (aborted r)

  unfoldable pub list_entities : Text → Exec net.State (List Entity)
  unfolding request_json
  list_entities token =
      request_json net.decode_states [] (authorized "GET" token (text "/api/states") none)
      >>= λ states. lift (ok (map entity_of states))
