-- ===== src/Notification/Cooldown.antt =====
-- The throttle of backend/internal/notification/trigger.go against a throttle that remembers every
-- alert for ever, and an alert that cannot be stored.
use smartclass.Prelude.{
  ℕ, ◌+◌, ◌-◌, ◌≤◌, ◌<◌, String, Bool, true, false, Option, List, [], ◌∷◌, ◌≡◌, refl, ◌==◌, nat_eq,
  string_eq, pair_eq, if◌then◌else◌, ltb, arith, Bool-cases, Option-cases, inl, inr, ◌||◌, ◌&&◌,
}
use smartclass.Prelude.Dict.{empty, get, put, remove_where, get-empty, get-put, get-remove_where}
use smartclass.Platform.Errors.{Error, err}
use smartclass.Platform.Context.{Ctx}
use smartclass.Classroom.Repository.{Db}
use smartclass.Notification.Service.{Setup, create_for_classroom}
use smartclass.Notification.Delivery.{create_for_classroom_failed}
use smartclass.Notification.Trigger.{
  Key, Alerts, Engine, cooldown, is_recent, is_expired, throttle, alert, alert_input,
  on_device_state_change,
}

-- Whether an alert of the key was raised less than the cooldown before.
abbrev raised_lately : Key → ℕ → List (ℕ × Key) → Bool
raised_lately key now [] = false
raised_lately key now (a ∷ rest) =
    a.1 == key && ltb (now - a.0) cooldown || raised_lately key now rest

-- The answers of the reference to a sequence of requests for alerts
abbrev pub expected : List (ℕ × Key) → List (ℕ × Key) → List Bool
expected raised [] = []
expected raised (a ∷ rest) =
    raised_lately a.1 a.0 raised
    ∷ expected (if raised_lately a.1 a.0 raised then raised else a ∷ raised) rest

-- The answers of throttle
abbrev pub answers : Alerts → List (ℕ × Key) → List Bool
answers alerts [] = []
answers alerts (a ∷ rest) = (throttle a.0 a.1 alerts).0 ∷ answers (throttle a.0 a.1 alerts).1 rest

-- A clock that does not run back
abbrev pub IsClock : ℕ → List (ℕ × Key) → Type 0
IsClock now [] = Unit
IsClock now (a ∷ rest) = (now ≤ a.0) × IsClock a.0 rest

Agrees : ℕ → Alerts → List (ℕ × Key) → Type 0
Agrees now alerts raised =
    (key : Key) (later : ℕ)
    → now ≤ later
    → is_recent later (get alerts key) ≡ raised_lately key later raised

raised_lately_antitone :
    (key : Key) (now later : ℕ) (raised : List (ℕ × Key))
    → now ≤ later
    → raised_lately key now raised ≡ false
    → raised_lately key later raised ≡ false
raised_lately_antitone key now later [] le h = refl
raised_lately_antitone key now later (a ∷ rest) le h =
    ground (arith, raised_lately_antitone key now later rest le)

-- Eviction takes away only what is never recent again.
evicted :
    (now later : ℕ) (key : Key) (alerts : Alerts)
    → now ≤ later
    → is_recent later (get (remove_where (is_expired now) alerts) key)
      ≡ is_recent later (get alerts key)
evicted now later key alerts le = elim (Option-cases (get alerts key)) [
  | inl missing ↦ ground (arith, get-remove_where (is_expired now) alerts key)
  | inr (t, found) ↦ ground (arith, get-remove_where (is_expired now) alerts key)
]

throttle-Agrees :
    (a : ℕ × Key) (alerts : Alerts) (raised : List (ℕ × Key))
    → Agrees a.0 alerts raised
    → raised_lately a.1 a.0 raised ≡ false
    → Agrees a.0 (throttle a.0 a.1 alerts).1 (a ∷ raised)
unfolding Agrees throttle
throttle-Agrees a alerts raised agrees quiet key later le =
    let stored = get-put alerts a.1 key a.0 in
    let same = agrees key later le in
    let now = agrees a.1 a.0 (omega arith) in
    let kept = evicted a.0 later key (put alerts a.1 a.0) le in
    let old = raised_lately_antitone key a.0 later raised le in
    elim (Bool-cases (a.1 == key)) [
      | inl at ↦
          let own : a.1 ≡ key = (pair_eq.beq_iff a.1 key).0 at in
          let silent : raised_lately key a.0 raised ≡ false = rw (← own) quiet in
          ground (arith, stored, kept, old silent, quiet, now)
      | inr other ↦ ground (arith, stored, kept, same, quiet, now)
    ]

answers-expected_from :
    (now : ℕ) (alerts : Alerts) (raised calls : List (ℕ × Key))
    → Agrees now alerts raised
    → IsClock now calls
    → answers alerts calls ≡ expected raised calls
unfolding Agrees throttle
answers-expected_from now alerts raised [] agrees clock = refl
answers-expected_from now alerts raised (a ∷ rest) agrees clock =
    let here = agrees a.1 a.0 clock.0 in
    let later : Agrees a.0 alerts raised = λ key l le. agrees key l (omega (arith, clock.0, le)) in
    elim (Bool-cases (raised_lately a.1 a.0 raised)) [
      | inl on ↦
          let tail = answers-expected_from a.0 alerts raised rest later clock.1 in
          ground (arith, here, on, tail)
      | inr quiet ↦
          let tail =
            answers-expected_from a.0 (throttle a.0 a.1 alerts).1 (a ∷ raised) rest
              (throttle-Agrees a alerts raised later quiet) clock.1 in
          ground (arith, here, quiet, tail)
    ]

-- On a clock that does not run back, throttle suppresses an alert exactly if one for the same
-- classroom, device and rule was let through in the five minutes before, although it forgets old
-- alerts when it holds many.
pub answers-expected :
    (calls : List (ℕ × Key)) → IsClock 0 calls → answers empty calls ≡ expected [] calls
unfolding Agrees
answers-expected calls clock =
    answers-expected_from 0 empty [] calls (λ key later le. ground (arith, get-empty {V = ℕ} key))
      clock

throttle_marks :
    (now later : ℕ) (key : Key) (alerts : Alerts)
    → is_recent now (get alerts key) ≡ false
    → now ≤ later
    → later < now + cooldown
    → (throttle later key (throttle now key alerts).1) ≡ (true, (throttle now key alerts).1)
unfolding throttle
throttle_marks now later key alerts quiet le soon =
    let stored = get-put alerts key key now in
    let kept = evicted now later key (put alerts key now) le in
    let same : ◌==◌ {A = Key} key key ≡ true = (pair_eq.beq_iff key key).1 refl in
    ground (arith, stored, kept, same)

-- An alert of an offline device that cannot be stored is lost: nothing is stored and nobody is told,
-- and when the device is reported offline again within the next five minutes, nothing is done
-- either.
pub lost_alert :
    (sprintf : String → String) (json : ℕ → String → Option String) (s : Setup) (c c' : Ctx)
    (db db' : Db) (classroom_id device_id : ℕ) (name : String) (e : Engine) (x : Error)
    → is_recent c.now (get e.alerts ((classroom_id, device_id), "device_offline")) ≡ false
    → (create_for_classroom s c db classroom_id
        (alert_input "Device offline" (sprintf name) (json device_id "device_offline"))
        e.outbox).0
      ≡ err x
    → c.now ≤ c'.now
    → c'.now < c.now + cooldown
    → let first = on_device_state_change sprintf json s c db classroom_id device_id name false e in
      (first.outbox ≡ e.outbox)
      × (on_device_state_change sprintf json s c' db' classroom_id device_id name false first
          ≡ first)
unfolding on_device_state_change alert throttle
lost_alert sprintf json s c c' db db' classroom_id device_id name e x quiet failed le soon =
    let input = alert_input "Device offline" (sprintf name) (json device_id "device_offline") in
    let key : Key = ((classroom_id, device_id), "device_offline") in
    let unchanged = create_for_classroom_failed s c db classroom_id input e.outbox x failed in
    let marked = throttle_marks c.now c'.now key e.alerts quiet le soon in
    (ground (arith, unchanged), ground (arith, marked))
