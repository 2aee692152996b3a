-- ===== src/Realtime/Tickets.antt =====
-- ticket.go of backend/internal/realtime/ws: single-use tickets for the upgrade to a websocket. The
-- map of a store is keyed by the random text that `Issue` encodes.
use smartclass.Prelude.{
  ℕ, ◌+◌, Bool, false, Option, none, some, ◌≡◌, ◌==◌, nat_eq, text_eq, ltb, if◌then◌else◌, arith,
}
use smartclass.Prelude.Dict.{Dict, get, put, remove, remove_where, get-put, get-remove}
use smartclass.Prelude.Text.{Text}
use smartclass.Platform.Errors.{ok, err, internal, ticket_unknown}
use smartclass.Platform.Exec.{Exec}
use smartclass.Platform.Context.{Ctx}
use smartclass.User.{Role}

pub record Ticket : Type 0 where
  pub raw : Text
  pub user_id : ℕ
  pub role : Role
  pub expires_at : ℕ

-- ticketEntry
pub record Entry : Type 0 where
  pub user_id : ℕ
  pub role : Role
  pub expires_at : ℕ
  pub used : Bool

abbrev pub Store : Type 0
Store = Dict Text Entry

-- NewMemTicketStore: 60 seconds where the lifetime is not positive
unfoldable pub ttl_or_default : ℕ → ℕ
ttl_or_default ttl = if ttl == 0 then 60 else ttl

-- Issue; `entropy` is the random text, or none where the random source fails.
unfoldable pub issue : Ctx → ℕ → Option Text → ℕ → Role → Exec Store Ticket
issue c ttl none user_id role s = (err internal, s)
issue c ttl (some raw) user_id role s = (
  ok (record { raw = raw; user_id = user_id; role = role; expires_at = c.now + ttl }),
  put s raw (record { user_id = user_id; role = role; expires_at = c.now + ttl; used = false }),
)

abbrev pub ticket_of : Text → Entry → Ticket
ticket_of raw e = record {
  raw = raw;
  user_id = e.user_id;
  role = e.role;
  expires_at = e.expires_at;
}

-- Consume, where no other request comes between its steps
unfoldable pub consume : Ctx → Text → Exec Store Ticket
consume c raw s = elim (get s raw) [
  | none ↦ (err ticket_unknown, s)
  | some e ↦
      if ltb e.expires_at c.now
      then (err ticket_unknown, remove s raw)
      else if e.used
      then (err ticket_unknown, s)
      else (ok (ticket_of raw e), remove s raw)
]

-- cleanup, which the loop of Run calls on each tick
unfoldable pub cleanup : ℕ → Store → Store
cleanup now s = remove_where (λ raw e. ltb e.expires_at now) s

-- A ticket that is issued is redeemed, until it expires, by its text, for the user and the role
-- that it was issued to, and only once: the next attempt fails, as does one after it has expired.
pub consume-issue :
    (c c' c'' : Ctx) (ttl user_id : ℕ) (raw : Text) (role : Role) (s : Store)
    → let issued = (issue c ttl (some raw) user_id role s).1 in
      let first = consume c' raw issued in
      (first.0 ≡ (
        if ltb (c.now + ttl) c'.now
        then err ticket_unknown
        else ok (record { raw = raw; user_id = user_id; role = role; expires_at = c.now + ttl })))
      × ((consume c'' raw first.1).0 ≡ err ticket_unknown)
unfolding issue consume
consume-issue c c' c'' ttl user_id raw role s =
    let e : Entry = record {
      user_id = user_id;
      role = role;
      expires_at = c.now + ttl;
      used = false;
    } in
    let stored = get-put s raw raw e in
    let gone = get-remove (put s raw e) raw raw in
    (
      ground (arith, stored, text_eq.beq_iff raw raw),
      ground (arith, stored, gone, text_eq.beq_iff raw raw),
    )
