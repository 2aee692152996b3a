-- ===== src/Realtime/Sessions.antt =====
-- The gate of backend/internal/realtime/ws as a transition system: upgrades, publications, reads and
-- departures, in any order.
use smartclass.Prelude.{
  ℕ, true, false, none, some, List, [], ◌∷◌, ◌≡◌, inl, inr, sym, subst, nat_eq, text_eq, pair_eq,
  Has, All-Has, arith,
}
use smartclass.Prelude.Dict.{get, get-empty}
use smartclass.Prelude.Text.{Text}
use smartclass.Platform.Errors.{ok, is_ok, Result-cases}
use smartclass.Platform.Context.{Ctx}
use smartclass.Platform.Uuids.{Uuids}
use smartclass.Realtime.Events.{Event, classroom_topic, user_topic}
use smartclass.Realtime.Tickets
use smartclass.Realtime.Tickets.{Ticket, consume}
use smartclass.Realtime.Topics.{
  Authorizer, asked, IsAdmitted, authorize_topics, authorize_topics_sound,
  IsAdmitted-classroom_topic, IsAdmitted-user_topic,
}
use smartclass.Realtime.Hub.{
  Client, new_hub, new_client, register, unregister, publish, take_message,
}
use smartclass.Realtime.Handler.{Upgrade, Gate, serve, holder}
use smartclass.Realtime.Privacy.{
  Opening, IsPrivate, register-IsPrivate, publish-IsPrivate, take_message-IsPrivate,
  unregister-IsPrivate,
}

-- The history of the gate, with the clients that were let in. The uuid of a client is fresh.
pub data Reach (u : Uuids) (allowed : List Text) : Gate → List Opening → Type 0 where
  start :
      (tickets : Tickets.Store) → Reach u allowed (record { tickets = tickets; hub = new_hub }) []
  opened :
      {g : Gate} {os : List Opening} (authz : Authorizer) (c : Ctx) (r : Upgrade) (t : Ticket)
      → Reach u allowed g os
      → get g.hub.clients (c.fresh 0) ≡ none
      → (consume c r.ticket g.tickets).0 ≡ ok t
      → is_ok (serve u authz allowed c r g).0 ≡ true
      → Reach u allowed
          (serve u authz allowed c r g).1
          (record { id = c.fresh 0; holder = holder t; authz = authz } ∷ os)
  refused :
      {g : Gate} {os : List Opening} (authz : Authorizer) (c : Ctx) (r : Upgrade)
      → Reach u allowed g os
      → is_ok (serve u authz allowed c r g).0 ≡ false
      → Reach u allowed (serve u authz allowed c r g).1 os
  ticketed :
      {g : Gate} {os : List Opening} (tickets : Tickets.Store)
      → Reach u allowed g os
      → Reach u allowed (record g { tickets = tickets }) os
  published :
      {g : Gate} {os : List Opening} (e : Event)
      → Reach u allowed g os
      → Reach u allowed (record g { hub = publish e g.hub }) os
  wrote :
      {g : Gate} {os : List Opening} (id : ℕ)
      → Reach u allowed g os
      → Reach u allowed (record g { hub = take_message id g.hub }) os
  left :
      {g : Gate} {os : List Opening} (id : ℕ)
      → Reach u allowed g os
      → Reach u allowed (record g { hub = unregister id g.hub }) os

-- What Serve did when it let a client in, and that it leaves the hub alone when it does not.
serve_ok :
    (u : Uuids) (allowed : List Text) (authz : Authorizer) (c : Ctx) (r : Upgrade) (g : Gate)
    (t : Ticket)
    → (consume c r.ticket g.tickets).0 ≡ ok t
    → is_ok (serve u authz allowed c r g).0 ≡ true
    → (topics : List Text) × (authorize_topics u authz (holder t) r.topics ≡ ok topics)
      × ((serve u authz allowed c r g).1.hub ≡ register (c.fresh 0) (new_client topics) g.hub)
unfolding serve
serve_ok u allowed authz c r g t paid served =
    elim (Result-cases (authorize_topics u authz (holder t) r.topics)) [
      | inr (e, bad) ↦ absurd (ground arith)
      | inl (topics, good) ↦ (topics, good, ground arith)
    ]

serve_refused :
    (u : Uuids) (allowed : List Text) (authz : Authorizer) (c : Ctx) (r : Upgrade) (g : Gate)
    → is_ok (serve u authz allowed c r g).0 ≡ false
    → (serve u authz allowed c r g).1.hub ≡ g.hub
unfolding serve
serve_refused u allowed authz c r g failed = ground arith

new_hub-IsPrivate : (u : Uuids) → IsPrivate u [] new_hub
new_hub-IsPrivate u = record {
  admitted = λ id cl found. absurd (cc (found, get-empty {V = Client} id));
  queued = λ id cl e found has. absurd (cc (found, get-empty {V = Client} id));
  bounded = λ id cl found. absurd (cc (found, get-empty {V = Client} id));
  subscribed = λ id t on. absurd (ground (arith, get-empty {K = Text × ℕ} {V = Unit {0}} (t, id)));
}

-- Whatever happens at the gate, each client's topics are those that it was let in for, and its
-- channel holds at most 64 events, all of them on its topics.
pub Reach-IsPrivate :
    {u : Uuids} {allowed : List Text} {g : Gate} {os : List Opening}
    → Reach u allowed g os
    → IsPrivate u os g.hub
Reach-IsPrivate {u} (start tickets) = new_hub-IsPrivate u
Reach-IsPrivate {u} {allowed} (opened {g} {os} authz c r t before fresh paid served) =
    let (topics, good, hub) = serve_ok u allowed authz c r g t paid served in
    let o : Opening = record { id = c.fresh 0; holder = holder t; authz = authz } in
    subst (IsPrivate u (o ∷ os)) (sym hub) (
      register-IsPrivate u os g.hub o topics (Reach-IsPrivate before) fresh
        (authorize_topics_sound u authz (holder t) r.topics topics good))
Reach-IsPrivate {u} {allowed} (refused {g} {os} authz c r before failed) =
    subst (IsPrivate u os) (sym (serve_refused u allowed authz c r g failed))
      (Reach-IsPrivate before)
Reach-IsPrivate (ticketed tickets before) = Reach-IsPrivate before
Reach-IsPrivate {u} (published {g} {os} e before) =
    publish-IsPrivate u os g.hub e (Reach-IsPrivate before)
Reach-IsPrivate {u} (wrote {g} {os} id before) =
    take_message-IsPrivate u os g.hub id (Reach-IsPrivate before)
Reach-IsPrivate {u} (left {g} {os} id before) =
    unregister-IsPrivate u os g.hub id (Reach-IsPrivate before)

-- An event of a classroom reaches only clients whose ticket was issued to somebody whom the
-- authorizer let into that classroom when the client connected; a user's notification reaches only
-- clients of that user.
pub received_by_right :
    {u : Uuids} {allowed : List Text} {g : Gate} {os : List Opening}
    → Reach u allowed g os
    → (id : ℕ) (cl : Client) (e : Event) → get g.hub.clients id ≡ some cl
    → Has e cl.queue
    → (o : Opening) × Has o os
      × (o.id ≡ id)
      × ((room : ℕ) (kind : Text)
          → e.topic ≡ classroom_topic u room kind
          → asked o.authz o.holder room ≡ ok tt)
      × ((user_id : ℕ) → e.topic ≡ user_topic u user_id → user_id ≡ o.holder.user_id)
received_by_right {u} {allowed} {g} {os} reach id cl e found has =
    let p = Reach-IsPrivate reach in
    let (o, listed, own, all) = p.admitted id cl found in
    let admitted =
      All-Has (IsAdmitted u o.authz o.holder) cl.topics all e.topic (p.queued id cl e found has) in
    (
      o,
      listed,
      own,
      λ room kind topic.
          IsAdmitted-classroom_topic u o.authz o.holder room kind
            (subst (IsAdmitted u o.authz o.holder) topic admitted),
      λ user_id topic.
          IsAdmitted-user_topic u o.authz o.holder user_id
            (subst (IsAdmitted u o.authz o.holder) topic admitted),
    )
