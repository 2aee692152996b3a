-- ===== src/Hass/Aborts.antt =====
-- Which flows scrubFlows of service.go of backend/internal/hass asks Home Assistant to abort.
use smartclass.Prelude.{
  Bool, true, false, Option, List, [], ◌∷◌, ◌≡◌, inl, inr, refl, ap, sym, ◌∙◌, ◌==◌, text_eq,
  if◌then◌else◌, Bool-cases, keep, map,
}
use smartclass.Prelude.Dict.{get}
use smartclass.Prelude.Text.{Text, is_nil}
use smartclass.Platform.Errors.{Result, ok, err, Result-cases}
use smartclass.Platform.Exec.{Exec, lift, ◌>>=◌}
use smartclass.Hass.Network.{Call, Network, next-lift}
use smartclass.Hass.Client.Flows.{flow_id_valid, abort_call, abort_flow}
use smartclass.Hass.Client.Progress.{
  FlowProgress, dialled, read_json, write_json, auth_message, progress_message, welcomed, listed,
  authenticate, ask_progress, exchange, closing, list_in_progress_flows,
}
use smartclass.Hass.Wizard.{
  Wizard, text_or_empty, on_net, pop_last_flow, abort_if, abort_quietly, abort_matching,
  abort_listed, abort_last, scrub_flows,
}

-- The requests that Home Assistant has been sent over REST, newest first
pub record Logs (net : Network) : Type 0 where
  pub sent : net.State → List Call
  pub sent_send : (call : Call) (s : net.State) → sent (net.send call s).1 ≡ call ∷ sent s
  pub sent_dial : (s : net.State) → sent (net.dial s).1 ≡ sent s
  pub sent_receive : (s : net.State) → sent (net.receive s).1 ≡ sent s
  pub sent_write : (m : List (Text × Text)) (s : net.State) → sent (net.write m s).1 ≡ sent s
  pub sent_close : (s : net.State) → sent (net.close s) ≡ sent s

module _ (net : Network) where
  -- The flow that is remembered for a handler, where there is one
  abbrev pub last_of : Text → Wizard net → List Text
  last_of handler w =
      let id = text_or_empty (get w.last_flow handler) in if is_nil id then [] else id ∷ []

  -- The flows of a handler among those that Home Assistant lists
  abbrev pub listed_of : Text → Result (List FlowProgress) → List Text
  listed_of handler (err e) = []
  listed_of handler (ok flows) = map (λ f. f.flow_id) (keep (λ f. f.handler == handler) flows)

  -- The requests that abort flows, one for each valid id, in order, on those before
  abbrev pub aborts : Text → List Text → List Call → List Call
  aborts token [] calls = calls
  aborts token (id ∷ ids) calls =
      aborts token ids (if flow_id_valid id then abort_call net token id ∷ calls else calls)

module _ (net : Network) (logs : Logs net) where
  open logs use {sent, sent_send, sent_dial, sent_receive, sent_write, sent_close}

  abbrev Silent : {A : Type 0} → Exec net.State A → Type 0
  Silent m = (s : net.State) → sent (m s).1 ≡ sent s

  bind-Silent :
      {A B : Type 0} (m : Exec net.State A) (f : A → Exec net.State B)
      → Silent m
      → ((a : A) → Silent (f a))
      → Silent (m >>= f)
  bind-Silent m f quiet later s = elim (Result-cases (m s).0) [
    | inr (e, failed) ↦ rw failed (quiet s)
    | inl (a, good) ↦ rw good (later a (m s).1 ∙ quiet s)
  ]

  read-Silent : {A : Type 0} (decode : Text → Option A) → Silent (read_json net decode)
  unfolding read_json
  read-Silent decode s = sent_receive s

  write-Silent : (message : List (Text × Text)) → Silent (write_json net message)
  unfolding write_json
  write-Silent message s = sent_write message s

  -- A message and what is read off its answer
  asked-Silent :
      {A B : Type 0} (message : List (Text × Text)) (decode : Text → Option A) (f : A → Result B)
      → Silent (write_json net message >>= λ u. read_json net decode >>= λ a. lift (f a))
  asked-Silent message decode f =
      bind-Silent (write_json net message) (λ u. read_json net decode >>= λ a. lift (f a))
        (write-Silent message)
        (λ u.
          bind-Silent (read_json net decode) (λ a. lift (f a)) (read-Silent decode) (λ a s. refl))

  exchange-Silent : (token : Text) → Silent (exchange net token)
  unfolding exchange authenticate ask_progress
  exchange-Silent token =
      bind-Silent (read_json net net.decode_object)
        (λ hello. authenticate net token >>= λ u. ask_progress net) (read-Silent net.decode_object)
        (λ hello.
          bind-Silent (authenticate net token) (λ u. ask_progress net)
            (asked-Silent (auth_message token) net.decode_object (welcomed net))
            (λ u. asked-Silent progress_message net.decode_progress (listed net)))

  progress-Silent : (token : Text) → Silent (list_in_progress_flows net token)
  unfolding list_in_progress_flows dialled
  progress-Silent token =
      bind-Silent (dialled net) (λ u. closing net (exchange net token)) sent_dial
        (λ u s. sent_close _ ∙ exchange-Silent token s)

  quietly_sent :
      (token id : Text) (w : Wizard net)
      → sent (abort_quietly net token id w).hass.remote
        ≡ aborts net token (id ∷ []) (sent w.hass.remote)
  unfolding abort_quietly abort_flow
  quietly_sent token id w = elim (Bool-cases (flow_id_valid id)) [
    | inr bad ↦ rw bad refl
    | inl good ↦ rw good (ap sent (next-lift _ _ _) ∙ sent_send _ w.hass.remote)
  ]

  -- Those of the flows that are aborted by a test
  abbrev ids_if : Bool → Text → List Text
  ids_if false id = []
  ids_if true id = id ∷ []

  abort_if_sent :
      (test : Bool) (token id : Text) (w : Wizard net)
      → sent (abort_if net test token id w).hass.remote
        ≡ aborts net token (ids_if test id) (sent w.hass.remote)
  unfolding abort_if
  abort_if_sent false token id w = refl
  abort_if_sent true token id w = quietly_sent token id w

  kept_first :
      (test : Bool) (token id : Text) (ids : List Text) (calls : List Call)
      → aborts net token (if test then id ∷ ids else ids) calls
        ≡ aborts net token ids (aborts net token (ids_if test id) calls)
  kept_first false token id ids calls = refl
  kept_first true token id ids calls = refl

  map_if :
      (test : Bool) (f : FlowProgress) (fs : List FlowProgress)
      → map (λ (x : FlowProgress). x.flow_id) (if test then f ∷ fs else fs) ≡ (
          if test
          then f.flow_id ∷ map (λ (x : FlowProgress). x.flow_id) fs
          else map (λ (x : FlowProgress). x.flow_id) fs)
  map_if false f fs = refl
  map_if true f fs = refl

  matching_sent :
      (token handler : Text) (fs : List FlowProgress) (w : Wizard net)
      → sent (abort_matching net token handler fs w).hass.remote
        ≡ aborts net token (listed_of net handler (ok fs)) (sent w.hass.remote)
  unfolding abort_matching
  matching_sent token handler [] w = refl
  matching_sent token handler (f ∷ fs) w =
      let own = f.handler == handler in
      let w' = abort_if net own token f.flow_id w in
      let later = listed_of net handler (ok fs) in
      matching_sent token handler fs w'
      ∙ ap (aborts net token later) (abort_if_sent own token f.flow_id w)
      ∙ sym (kept_first own token f.flow_id later (sent w.hass.remote))
      ∙ ap (λ ids. aborts net token ids (sent w.hass.remote))
          (sym (map_if own f (keep (λ x. x.handler == handler) fs)))

  listed_sent :
      (token handler : Text) (r : Result (List FlowProgress)) (w : Wizard net)
      → sent (abort_listed net token handler r w).hass.remote
        ≡ aborts net token (listed_of net handler r) (sent w.hass.remote)
  unfolding abort_listed
  listed_sent token handler (err e) w = refl
  listed_sent token handler (ok fs) w = matching_sent token handler fs w

  last_sent :
      (token handler : Text) (w : Wizard net)
      → sent (abort_last net token (pop_last_flow net handler w)).hass.remote
        ≡ aborts net token (last_of net handler w) (sent w.hass.remote)
  unfolding abort_last pop_last_flow
  last_sent token handler w = elim (Bool-cases (is_nil (text_or_empty (get w.last_flow handler)))) [
    | inl nothing ↦ rw nothing refl
    | inr prev ↦ rw prev (quietly_sent token (text_or_empty (get w.last_flow handler)) w)
  ]

  -- Before a flow is started, scrubFlows sends Home Assistant one DELETE for the flow that it remembers
  -- of the handler, then one for each flow of the handler that Home Assistant lists, in order, leaving
  -- out ids that are not of the form of a flow id; and it sends nothing else over REST.
  pub scrub_flows_sent :
      (token handler : Text) (w : Wizard net)
      → let prev = abort_last net token (pop_last_flow net handler w) in
        let listed = (list_in_progress_flows net token prev.hass.remote).0 in
        sent (scrub_flows net token handler w).hass.remote
        ≡ aborts net token
            (listed_of net handler listed)
            (aborts net token (last_of net handler w) (sent w.hass.remote))
  unfolding scrub_flows
  scrub_flows_sent token handler w =
      let prev = abort_last net token (pop_last_flow net handler w) in
      let listed = on_net net (list_in_progress_flows net token) prev in
      listed_sent token handler listed.0 listed.1
      ∙ ap (aborts net token (listed_of net handler listed.0))
          (progress-Silent token prev.hass.remote ∙ last_sent token handler w)
