-- ===== src/Realtime/Handler.antt =====
-- Serve and makeCheckOrigin of handler.go of backend/internal/realtime/ws, and ticket_handler.go.
-- The pumps appear as the calls they make on the hub.
use smartclass.Prelude.{
  ℕ, Bool, false, ◌&&◌, ◌||◌, Option, none, some, List, [], ◌∷◌, ◌==◌, text_eq, if◌then◌else◌,
}
use smartclass.Prelude.Text.{Text, text, is_nil, trim_space}
use smartclass.Platform.Errors.{
  Result, ok, err, ws_ticket_required, ws_ticket_invalid, unauthorized, internal,
}
use smartclass.Platform.Exec.{Exec, next}
use smartclass.Platform.Context.{Ctx}
use smartclass.Platform.Uuids.{Uuids}
use smartclass.User.{Principal}
use smartclass.Realtime.Tickets
use smartclass.Realtime.Tickets.{Ticket, consume, issue}
use smartclass.Realtime.Topics.{Authorizer, authorize_topics}
use smartclass.Realtime.Hub.{Hub, new_client, register}

-- TicketHandler.ServeHTTP: the principal is the one that the access token has shown.
unfoldable pub issue_ticket : Ctx → ℕ → Option Text → Option Principal → Exec Tickets.Store Ticket
issue_ticket c ttl entropy none s = (err unauthorized, s)
issue_ticket c ttl entropy (some p) s = issue c ttl entropy p.user_id p.role s

abbrev trimmed_in : Text → List Text → Bool
trimmed_in origin [] = false
trimmed_in origin (o ∷ os) = trim_space o == origin || trimmed_in origin os

abbrev allows_all : List Text → Bool
allows_all [] = false
allows_all (o ∷ []) = trim_space o == text "*"
allows_all (o ∷ o' ∷ os) = false

-- makeCheckOrigin
unfoldable pub check_origin : List Text → Text → Bool
check_origin allowed origin = allows_all allowed || is_nil origin || trimmed_in origin allowed

-- The queries and headers of the request, and whether gorilla/websocket completes the handshake
-- with a client whose origin is allowed.
pub record Upgrade : Type 0 where
  pub ticket : Text
  pub topics : List Text
  pub origin : Text
  pub handshake : Bool

pub record Gate : Type 0 where
  pub tickets : Tickets.Store
  pub hub : Hub

abbrev on_tickets : {A : Type 0} → Exec Tickets.Store A → Exec Gate A
on_tickets m g = ((m g.tickets).0, record g { tickets = (m g.tickets).1 })

-- `if err != nil { … ErrWSTicketInvalid }` after Consume
abbrev invalid_ticket : Result Ticket → Result Ticket
invalid_ticket (ok t) = ok t
invalid_ticket (err e) = err ws_ticket_invalid

abbrev pub holder : Ticket → Principal
holder t = record { user_id = t.user_id; role = t.role }

-- Serve: the id of the client that was registered. The status of a failed handshake is
-- gorilla/websocket's own.
unfoldable pub serve : Uuids → Authorizer → List Text → Ctx → Upgrade → Exec Gate ℕ
serve u authz allowed c r g =
    if is_nil r.ticket
    then (err ws_ticket_required, g)
    else let t = consume c r.ticket g.tickets in
      let spent = record g { tickets = t.1 } in
      next (invalid_ticket t.0) spent (λ ticket s.
        next (authorize_topics u authz (holder ticket) r.topics) s (λ topics s'.
          if check_origin allowed r.origin && r.handshake
          then (ok (c.fresh 0), record s' { hub = register (c.fresh 0) (new_client topics) s'.hub })
          else (err internal, s')))
