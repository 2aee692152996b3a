-- ===== src/Realtime/Subscriptions.antt =====
-- Who is subscribed to what in the hub of backend/internal/realtime/ws, and what a publication does.
use smartclass.Prelude.{
  ℕ, true, false, some, List, [], ◌∷◌, ◌≡◌, ◌↔◌, ◌⊎◌, inl, inr, refl, sym, ap, ◌==◌, nat_eq,
  text_eq, pair_eq, Has, arith, Bool-cases,
}
use smartclass.Prelude.Dict.{Dict, get, put, get-put, get-remove, get-map_values}
use smartclass.Prelude.Text.{Text}
use smartclass.Realtime.Events.{Event}
use smartclass.Realtime.Hub.{
  Hub, new_client, subscribe, unsubscribe, register, publish, is_subscribed, offered,
}

-- After Register the client is subscribed to its topics, and the others to theirs.
pub subscribe_iff :
    (id j : ℕ) (t : Text) (ts : List Text) (d : Dict (Text × ℕ) (Unit {0}))
    → (is_subscribed (get (subscribe id ts d) (t, j)) ≡ true)
      ↔ (((id ≡ j) × Has t ts) ⊎ (is_subscribed (get d (t, j)) ≡ true))
unfolding subscribe
subscribe_iff id j t [] d = (λ h. inr h, λ h. elim h [ inl (e, m) ↦ elim m [ ] | inr old ↦ old ])
subscribe_iff id j t (s ∷ ss) d =
    let ih = subscribe_iff id j t ss d in
    elim (Bool-cases (◌==◌ {A = Text × ℕ} (s, id) (t, j))) [
      | inl same ↦
          let pair = (pair_eq.beq_iff (s, id) (t, j)).0 same in
          (
            λ h. inl (ap (λ (p : Text × ℕ). p.1) pair, inl (sym (ap (λ (p : Text × ℕ). p.0) pair))),
            λ h. ground (arith, get-put (subscribe id ss d) (s, id) (t, j) tt),
          )
      | inr other ↦ (
        λ h. elim (ih.0 (ground (arith, get-put (subscribe id ss d) (s, id) (t, j) tt))) [
          | inl (e, m) ↦ inl (e, inr m)
          | inr old ↦ inr old
        ],
        λ h. ground (arith, get-put (subscribe id ss d) (s, id) (t, j) tt, ih.1 (earlier h other)),
      )
    ]
  where
    earlier :
        ((id ≡ j) × Has t (s ∷ ss)) ⊎ (is_subscribed (get d (t, j)) ≡ true)
        → ◌==◌ {A = Text × ℕ} (s, id) (t, j) ≡ false
        → ((id ≡ j) × Has t ss) ⊎ (is_subscribed (get d (t, j)) ≡ true)
    earlier (inr old) other = inr old
    earlier (inl (e, inr m)) other = inl (e, m)
    earlier (inl (e, inl same)) other =
        absurd (cc ((pair_eq.beq_iff (s, id) (t, j)).1 (λ i. (sym same i, e i)), other))

-- Unregister adds no subscription.
pub unsubscribe_le :
    (id j : ℕ) (t : Text) (ts : List Text) (d : Dict (Text × ℕ) (Unit {0}))
    → is_subscribed (get (unsubscribe id ts d) (t, j)) ≡ true
    → is_subscribed (get d (t, j)) ≡ true
unfolding unsubscribe
unsubscribe_le id j t [] d h = h
unsubscribe_le id j t (s ∷ ss) d h =
    unsubscribe_le id j t ss d (ground (arith, get-remove (unsubscribe id ss d) (s, id) (t, j)))

-- A client that has just been registered, and had no subscription to the topic before, receives a
-- publication exactly if the topic is among its own.
pub publish-register :
    (id : ℕ) (topics : List Text) (e : Event) (h : Hub)
    → is_subscribed (get h.by_topic (e.topic, id)) ≡ false
    → (Has e.topic topics
        → get (publish e (register id (new_client topics) h)).clients id
          ≡ some (record (new_client topics) { queue = e ∷ [] }))
      × (¬ Has e.topic topics
          → get (publish e (register id (new_client topics) h)).clients id
            ≡ some (new_client topics))
unfolding publish register
publish-register id topics e h fresh =
    let iff = subscribe_iff id id e.topic topics h.by_topic in
    let there = get-put h.clients id id (new_client topics) in
    let after =
      get-map_values (offered (subscribe id topics h.by_topic) e)
        (put h.clients id (new_client topics)) id in
    (
      λ m. ground (arith, there, after, iff.1 (inl (refl, m))),
      λ m. elim (Bool-cases (is_subscribed (get (subscribe id topics h.by_topic) (e.topic, id)))) [
        | inl on ↦ elim (iff.0 on) [
          | inl (same, has) ↦ absurd (m has)
          | inr old ↦ absurd (ground arith)
        ]
        | inr off ↦ ground (arith, there, after)
      ],
    )
