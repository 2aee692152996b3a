-- ===== src/Hass/Network.antt =====
-- What client.go of backend/internal/hass calls: net/http with the replies of Home Assistant, the
-- JSON of encoding/json, and gorilla/websocket, all parameters. The texts of the errors are left out.
use smartclass.Prelude.{ℕ, ◌+◌, ◌-◌, String, Bool, Option, none, some, List, ◌≡◌, refl}
use smartclass.Prelude.Int.{ℤ, pos, negsuc}
use smartclass.Prelude.Text.{Text}
use smartclass.Platform.Errors.{Result, ok, err, hass_upstream}
use smartclass.Platform.Exec.{Exec, next, lift}

-- A request; the fields of its JSON or form body, where it has one.
pub record Call : Type 0 where
  pub method : String
  pub path : Text
  pub bearer : Option Text
  pub body : Option (List (Text × Text))

pub record Reply : Type 0 where
  pub status : ℕ
  pub body : Text

-- tokenResp
pub record TokenReply : Type 0 where
  pub access_token : Text
  pub refresh_token : Text
  pub expires_in : ℤ

-- The result of the last step of a login
pub record LoginReply : Type 0 where
  pub type : Text
  pub result : Text

pub record FlowStep : Type 0 where
  pub flow_id : Text
  pub handler : Text
  pub type : Text
  pub step_id : Text
  pub reason : Text

pub record HaState : Type 0 where
  pub entity_id : Text
  pub state : Text
  pub friendly_name : Option Text

-- `Handler any`: a string, an array of which the first element may be a string, or something else
pub data FlowOwner : Type 0 where
  plain : Text → FlowOwner
  tuple : List (Option Text) → FlowOwner
  other : FlowOwner

pub record RawFlow : Type 0 where
  pub flow_id : Text
  pub handler : FlowOwner
  pub step_id : Text

pub record ProgressReply : Type 0 where
  pub success : Bool
  pub result : List RawFlow

pub record Network : Type 1 where
  pub State : Type 0
  pub base_url : Text
  -- Do: none where the request cannot be made or is not answered
  pub send : Call → State → Option Reply × State
  pub now : State → ℕ
  pub cancelled : State → Bool
  -- the websocket: Dial, ReadJSON of a frame, WriteJSON and Close
  pub dial : State → Bool × State
  pub receive : State → Option Text × State
  pub write : List (Text × Text) → State → Bool × State
  pub close : State → State
  -- json.Unmarshal into each type
  pub decode_onboarding : Text → Option (List (Text × Bool))
  pub decode_auth_code : Text → Option Text
  pub decode_tokens : Text → Option TokenReply
  pub decode_login_flow : Text → Option Text
  pub decode_login : Text → Option LoginReply
  pub decode_domains : Text → Option (List Text)
  pub decode_step : Text → Option FlowStep
  pub decode_states : Text → Option (List HaState)
  pub decode_object : Text → Option (List (Text × Text))
  pub decode_progress : Text → Option ProgressReply

abbrev pub answered : Option Reply → Result Reply
answered none = err hass_upstream
answered (some reply) = ok reply

module _ (net : Network) where
  -- `resp, err := c.http.Do(req)`, with ErrUpstream for an error
  abbrev pub do_call : Call → Exec net.State Reply
  do_call call s = (answered (net.send call s).0, (net.send call s).1)

  -- `time.Now().Add(time.Duration(n) * time.Second)`; that the product may leave the 64 bits of a
  -- Duration is left out.
  abbrev pub after_seconds : ℤ → net.State → ℕ
  after_seconds (pos n) s = net.now s + n
  after_seconds (negsuc n) s = net.now s - (n + 1)

-- What is read off an answer makes no further request.
pub next-lift :
    {S A B : Type 0} (r : Result A) (s : S) (f : A → Result B) → (next r s (λ a. lift (f a))).1 ≡ s
next-lift (ok a) s f = refl
next-lift (err e) s f = refl
