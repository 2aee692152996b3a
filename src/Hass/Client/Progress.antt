-- ===== src/Hass/Client/Progress.antt =====
-- ListInProgressFlows of client.go of backend/internal/hass, over the websocket of Home Assistant.
use smartclass.Prelude.{not, Option, none, some, List, [], ◌∷◌, ◌==◌, text_eq, if◌then◌else◌, map}
use smartclass.Prelude.Text.{Text, text}
use smartclass.Platform.Errors.{Result, ok, err, hass_upstream, reject_if}
use smartclass.Platform.Exec.{Exec, lift, ◌>>=◌}
use smartclass.Hass.Network.{FlowOwner, plain, tuple, other, RawFlow, ProgressReply, Network}

pub record FlowProgress : Type 0 where
  pub flow_id : Text
  pub handler : Text
  pub step_id : Text

-- The handler as a string: the string itself, or the first element of an array where it is one.
unfoldable pub owner_name : FlowOwner → Text
owner_name (plain name) = name
owner_name (tuple []) = []
owner_name (tuple (none ∷ rest)) = []
owner_name (tuple (some name ∷ rest)) = name
owner_name other = []

unfoldable pub progress_of : RawFlow → FlowProgress
unfolding owner_name
progress_of r = record { flow_id = r.flow_id; handler = owner_name r.handler; step_id = r.step_id }

abbrev pub field : Text → List (Text × Text) → Text
field key [] = []
field key ((k, v) ∷ rest) = if k == key then v else field key rest

abbrev pub auth_message : Text → List (Text × Text)
auth_message token = (text "type", text "auth") ∷ (text "access_token", token) ∷ []

abbrev pub progress_message : List (Text × Text)
progress_message = (text "id", text "1") ∷ (text "type", text "config_entries/flow/progress") ∷ []

module _ (net : Network) where
  unfoldable pub dialled : Exec net.State (Unit {0})
  dialled s = (reject_if (not (net.dial s).0) hass_upstream, (net.dial s).1)

  abbrev read_as : {A : Type 0} → (Text → Option A) → Option Text → Result A
  read_as decode none = err hass_upstream
  read_as decode (some frame) = elim (decode frame) [ none ↦ err hass_upstream | some a ↦ ok a ]

  -- conn.ReadJSON
  unfoldable pub read_json : {A : Type 0} → (Text → Option A) → Exec net.State A
  read_json decode s = (read_as decode (net.receive s).0, (net.receive s).1)

  -- conn.WriteJSON
  unfoldable pub write_json : List (Text × Text) → Exec net.State (Unit {0})
  write_json message s =
      (reject_if (not (net.write message s).0) hass_upstream, (net.write message s).1)

  abbrev pub listed : ProgressReply → Result (List FlowProgress)
  listed r = if r.success then ok (map progress_of r.result) else err hass_upstream

  abbrev pub welcomed : List (Text × Text) → Result (Unit {0})
  welcomed auth = reject_if (not (field (text "type") auth == text "auth_ok")) hass_upstream

  unfoldable pub authenticate : Text → Exec net.State (Unit {0})
  unfolding read_json write_json
  authenticate token = write_json (auth_message token) >>= λ _.
      read_json net.decode_object >>= λ auth. lift (welcomed auth)

  unfoldable pub ask_progress : Exec net.State (List FlowProgress)
  unfolding read_json write_json progress_of
  ask_progress =
      write_json progress_message >>= λ _. read_json net.decode_progress >>= λ r. lift (listed r)

  -- auth_required, auth, auth_ok, and the one command
  unfoldable pub exchange : Text → Exec net.State (List FlowProgress)
  unfolding authenticate ask_progress
  exchange token = read_json net.decode_object >>= λ hello. authenticate token >>= λ _. ask_progress

  -- `defer conn.Close()`
  abbrev pub closing : {A : Type 0} → Exec net.State A → Exec net.State A
  closing m s = ((m s).0, net.close (m s).1)

  unfoldable pub list_in_progress_flows : Text → Exec net.State (List FlowProgress)
  unfolding exchange dialled
  list_in_progress_flows token = dialled >>= λ _. closing (exchange token)
