-- ===== src/Realtime/Privacy.antt =====
-- What a websocket client can receive: only events on topics that it may listen to, through any
-- sequence of upgrades, publications, reads and departures.
use smartclass.Prelude.{
  ℕ, ◌≤◌, true, not, ◌&&◌, none, some, List, [], ◌∷◌, ◌++◌, ◌≡◌, ◌⊎◌, inl, inr, refl, sym, ap,
  subst, ◌==◌, nat_eq, text_eq, pair_eq, ltb, length, length-append, Has, Has-append, All, arith,
  Bool-cases,
}
use smartclass.Prelude.Dict.{get, put, map_values, get-put, get-map_values, map_values_inv}
use smartclass.Prelude.Text.{Text}
use smartclass.Platform.Uuids.{Uuids}
use smartclass.User.{Principal}
use smartclass.Realtime.Events.{Event}
use smartclass.Realtime.Topics.{Authorizer, IsAdmitted}
use smartclass.Realtime.Hub.{
  Client, Hub, new_client, capacity, register, unregister, publish, take_message, is_subscribed,
  offered, closed_at, popped_at, tail_of,
}
use smartclass.Realtime.Subscriptions.{subscribe_iff, unsubscribe_le}

-- A client that was let in: its id, whom its ticket was issued to, and the authorizer at that time.
pub record Opening : Type 0 where
  pub id : ℕ
  pub holder : Principal
  pub authz : Authorizer

-- A client's topics are those that it was let in for, its channel holds events on them and no more
-- than it has room for, and the hub has no subscription of it to another topic.
pub record IsPrivate (u : Uuids) (os : List Opening) (h : Hub) : Type 0 where
  pub admitted :
      (id : ℕ) (cl : Client)
      → get h.clients id ≡ some cl
      → (o : Opening) × Has o os × (o.id ≡ id) × All (IsAdmitted u o.authz o.holder) cl.topics
  pub queued :
      (id : ℕ) (cl : Client) (e : Event)
      → get h.clients id ≡ some cl
      → Has e cl.queue
      → Has e.topic cl.topics
  pub bounded : (id : ℕ) (cl : Client) → get h.clients id ≡ some cl → length cl.queue ≤ capacity
  pub subscribed :
      (id : ℕ) (t : Text)
      → is_subscribed (get h.by_topic (t, id)) ≡ true
      → (cl : Client) × (get h.clients id ≡ some cl) × Has t cl.topics

Has-tail_of : (e : Event) (es : List Event) → Has e (tail_of es) → Has e es
Has-tail_of e [] h = h
Has-tail_of e (d ∷ ds) h = inr h

length-tail_of : (es : List Event) → length (tail_of es) ≤ length es
length-tail_of [] = omega arith
length-tail_of (d ∷ ds) = omega arith

-- An update of the clients that keeps their topics, and puts on a channel only what belongs there.
updated-IsPrivate :
    (u : Uuids) (os : List Opening) (h : Hub) (f : ℕ → Client → Client)
    → IsPrivate u os h
    → ((id : ℕ) (cl : Client)
        → get h.clients id ≡ some cl
        → ((f id cl).topics ≡ cl.topics)
          × ((e : Event) → Has e (f id cl).queue → Has e.topic cl.topics)
          × (length (f id cl).queue ≤ capacity))
    → IsPrivate u os (record h { clients = map_values f h.clients })
updated-IsPrivate u os h f p keeps = record {
  admitted = λ id cl found.
      let (old, there, same) = map_values_inv f h.clients id cl found in
      let (o, has, own, all) = p.admitted id old there in
      let topics : cl.topics ≡ old.topics =
        cc (ap (λ (x : Client). x.topics) same, (keeps id old there).0) in
      (o, has, own, subst (All (IsAdmitted u o.authz o.holder)) (sym topics) all);
  queued = λ id cl e found has.
      let (old, there, same) = map_values_inv f h.clients id cl found in
      let topics : cl.topics ≡ old.topics =
        cc (ap (λ (x : Client). x.topics) same, (keeps id old there).0) in
      let queue = ap (λ (x : Client). x.queue) same in
      subst (Has e.topic) (sym topics) ((keeps id old there).1 e (subst (Has e) queue has));
  bounded = λ id cl found.
      let (old, there, same) = map_values_inv f h.clients id cl found in
      let room = (keeps id old there).2 in
      let queue = ap (λ (x : Client). length x.queue) same in omega (arith, room, queue);
  subscribed = λ id t on.
      let (old, there, has) = p.subscribed id t on in
      (
        f id old,
        ground (arith, get-map_values f h.clients id, there),
        subst (Has t) (sym (keeps id old there).0) has,
      );
}

pub publish-IsPrivate :
    (u : Uuids) (os : List Opening) (h : Hub) (e : Event)
    → IsPrivate u os h
    → IsPrivate u os (publish e h)
unfolding publish
publish-IsPrivate u os h e p = updated-IsPrivate u os h (offered h.by_topic e) p keeps
  where
    pushed :
        (id : ℕ) (cl : Client) (d : Event)
        → get h.clients id ≡ some cl
        → is_subscribed (get h.by_topic (e.topic, id)) ≡ true
        → Has d (cl.queue ++ e ∷ [])
        → Has d.topic cl.topics
    pushed id cl d found on has = elim (Has-append d cl.queue (e ∷ []) has) [
      | inl old ↦ p.queued id cl d found old
      | inr (inr further) ↦ elim further [ ]
      | inr (inl same) ↦
          let (cl', found', topic) = p.subscribed id e.topic on in
          let own : some cl' ≡ some cl = cc (found, found') in
          let one : cl' ≡ cl = ground arith in
          subst (λ (x : Event). Has x.topic cl.topics) (sym same)
            (subst (λ (x : Client). Has e.topic x.topics) one topic)
    ]

    keeps :
        (id : ℕ) (cl : Client)
        → get h.clients id ≡ some cl
        → ((offered h.by_topic e id cl).topics ≡ cl.topics)
          × ((d : Event) → Has d (offered h.by_topic e id cl).queue → Has d.topic cl.topics)
          × (length (offered h.by_topic e id cl).queue ≤ capacity)
    keeps id cl found =
        let room = p.bounded id cl found in
        elim (Bool-cases (
          is_subscribed (get h.by_topic (e.topic, id))
          && not cl.closed
          && ltb (length cl.queue) capacity)) [
            | inl send ↦ rw send (
              refl,
              λ d has. pushed id cl d found (ground arith) has,
              ground (arith, length-append cl.queue (e ∷ [])),
            )
            | inr skip ↦ rw skip (refl, λ d has. p.queued id cl d found has, room)
          ]

pub take_message-IsPrivate :
    (u : Uuids) (os : List Opening) (h : Hub) (i : ℕ)
    → IsPrivate u os h
    → IsPrivate u os (take_message i h)
unfolding take_message
take_message-IsPrivate u os h i p = updated-IsPrivate u os h (popped_at i) p keeps
  where
    keeps :
        (id : ℕ) (cl : Client)
        → get h.clients id ≡ some cl
        → ((popped_at i id cl).topics ≡ cl.topics)
          × ((d : Event) → Has d (popped_at i id cl).queue → Has d.topic cl.topics)
          × (length (popped_at i id cl).queue ≤ capacity)
    keeps id cl found =
        let room = p.bounded id cl found in
        elim (Bool-cases (id == i)) [
          | inl at ↦ rw at (
            refl,
            λ d has. p.queued id cl d found (Has-tail_of d cl.queue has),
            omega (arith, room, length-tail_of cl.queue),
          )
          | inr other ↦ rw other (refl, λ d has. p.queued id cl d found has, room)
        ]

pub unregister-IsPrivate :
    (u : Uuids) (os : List Opening) (h : Hub) (i : ℕ)
    → IsPrivate u os h
    → IsPrivate u os (unregister i h)
unfolding unregister
unregister-IsPrivate u os h i p =
    let q = updated-IsPrivate u os h (closed_at i) p keeps in
    record {
      admitted = q.admitted;
      queued = q.queued;
      bounded = q.bounded;
      subscribed = λ id t on. q.subscribed id t (unsubscribe_le i id t _ h.by_topic on);
    }
  where
    keeps :
        (id : ℕ) (cl : Client)
        → get h.clients id ≡ some cl
        → ((closed_at i id cl).topics ≡ cl.topics)
          × ((d : Event) → Has d (closed_at i id cl).queue → Has d.topic cl.topics)
          × (length (closed_at i id cl).queue ≤ capacity)
    keeps id cl found =
        let room = p.bounded id cl found in
        elim (Bool-cases (id == i)) [
          | inl at ↦ rw at (refl, λ d has. p.queued id cl d found has, room)
          | inr other ↦ rw other (refl, λ d has. p.queued id cl d found has, room)
        ]

pub register-IsPrivate :
    (u : Uuids) (os : List Opening) (h : Hub) (o : Opening) (topics : List Text)
    → IsPrivate u os h
    → get h.clients o.id ≡ none
    → All (IsAdmitted u o.authz o.holder) topics
    → IsPrivate u (o ∷ os) (register o.id (new_client topics) h)
unfolding register
register-IsPrivate u os h o topics p fresh all = record {
  admitted = λ id cl found. elim (at_or_old id cl found) [
    | inl (at, new) ↦ (
      o,
      inl refl,
      at,
      subst (λ (x : Client). All (IsAdmitted u o.authz o.holder) x.topics) (sym new) all,
    )
    | inr old ↦ let (o', has, own, granted) = p.admitted id cl old in (o', inr has, own, granted)
  ];
  queued = λ id cl e found has. elim (at_or_old id cl found) [
    | inl (at, new) ↦ absurd (subst (λ (x : Client). Has e x.queue) new has)
    | inr old ↦ p.queued id cl e old has
  ];
  bounded = λ id cl found. elim (at_or_old id cl found) [
    | inl (at, new) ↦ subst (λ (x : Client). length x.queue ≤ capacity) (sym new) (omega arith)
    | inr old ↦ p.bounded id cl old
  ];
  subscribed = λ id t on. elim ((subscribe_iff o.id id t topics h.by_topic).0 on) [
    | inl (at, has) ↦
        (new_client topics, ground (arith, get-put h.clients o.id id (new_client topics)), has)
    | inr old ↦
        let (cl, found, has) = p.subscribed id t old in
        (cl, grind (arith, get-put h.clients o.id id (new_client topics)), has)
  ];
}
  where
    at_or_old :
        (id : ℕ) (cl : Client)
        → get (put h.clients o.id (new_client topics)) id ≡ some cl
        → ((o.id ≡ id) × (cl ≡ new_client topics)) ⊎ (get h.clients id ≡ some cl)
    at_or_old id cl found = elim (Bool-cases (o.id == id)) [
      | inl at ↦ inl (ground arith, ground (arith, get-put h.clients o.id id (new_client topics)))
      | inr other ↦ inr (ground (arith, get-put h.clients o.id id (new_client topics)))
    ]
