-- ===== src/Push/Pusher.antt =====
-- pusher.go and adapter.go of backend/internal/pushnotif: a push to every phone of a user, which
-- forgets the phones that Firebase no longer knows.
use smartclass.Prelude.{
  ℕ, Bool, true, false, ◌&&◌, ◌||◌, none, some, List, [], ◌∷◌, ◌≡◌, refl, sym, ap, ◌∙◌, ◌==◌,
  nat_eq, text_eq, pair_eq, if◌then◌else◌, keep, Has, Has-keep, Bool-cases, Option-cases, inl, inr,
  arith,
}
use smartclass.Prelude.Dict.{
  get, put, remove, rows, get-put, get-remove, Has-rows, empty, get-empty,
}
use smartclass.Prelude.Sort.{sort_with, Has-sort_with}
use smartclass.Prelude.Text.{Text}
use smartclass.Platform.Errors.{ok, err}
use smartclass.Platform.Exec.{Exec}
use smartclass.Platform.Context.{Ctx}
use smartclass.Push.Tokens.{
  DeviceToken, TokenTable, completed, delete_by_token, save_token, seen_first, tokens_of_user,
}
use smartclass.Push.Client.{Payload, Verdict, sent, invalid, failed, Firebase, send_push}

abbrev pub is_invalid : Verdict → Bool
is_invalid invalid = true
is_invalid sent = false
is_invalid failed = false

-- The loop; errors are only logged.
unfoldable pub push_all :
    Firebase → Ctx → ℕ → Payload → List ((ℕ × Text) × DeviceToken) → TokenTable → TokenTable
push_all f c user_id p [] table = table
push_all f c user_id p (t ∷ ts) table = push_all f c user_id p ts (
    if is_invalid (send_push f t.1.token p)
    then (delete_by_token c user_id t.1.token table).1
    else table)

-- Send
unfoldable pub push : Firebase → Ctx → ℕ → Payload → Exec TokenTable (Unit {0})
unfolding push_all
push f c user_id p table = elim (tokens_of_user c table user_id) [
  | err e ↦ (err e, table)
  | ok ts ↦ (ok tt, push_all f c user_id p ts table)
]

-- A row stands under its user and its token.
pub IsKeyed : TokenTable → Type 0
IsKeyed table =
    (k : ℕ × Text) (t : DeviceToken) → get table k ≡ some t → (t.user_id ≡ k.0) × (t.token ≡ k.1)

abbrev named : Text → List ((ℕ × Text) × DeviceToken) → Bool
named token [] = false
named token (t ∷ ts) = t.1.token == token || named token ts

-- What the loop leaves of a row.
push_all_lem :
    (f : Firebase) (c : Ctx) (user_id : ℕ) (p : Payload) (ts : List ((ℕ × Text) × DeviceToken))
    (table : TokenTable) (k : ℕ × Text)
    → c.fails "devicetoken.DeleteByToken" user_id ≡ false
    → get (push_all f c user_id p ts table) k ≡ (
        if k.0 == user_id && named k.1 ts && is_invalid (send_push f k.1 p)
        then none
        else get table k)
unfolding push_all delete_by_token
push_all_lem f c user_id p [] table k alive = ground arith
push_all_lem f c user_id p (t ∷ ts) table k alive =
    let after = remove table (user_id, t.1.token) in
    let stays = push_all_lem f c user_id p ts table k alive in
    let goes = push_all_lem f c user_id p ts after k alive in
    let removed = get-remove table (user_id, t.1.token) k in
    elim (Bool-cases (is_invalid (send_push f t.1.token p))) [
      | inr keeps ↦ elim (Bool-cases (t.1.token == k.1)) [
        | inl own ↦
            let at : t.1.token ≡ k.1 = (text_eq.beq_iff t.1.token k.1).0 own in
            let same : is_invalid (send_push f k.1 p) ≡ false = rw (← at) keeps in
            ground (arith, keeps, stays, same)
        | inr other ↦ ground (arith, keeps, stays, other)
      ]
      | inl gone ↦ elim (Bool-cases (t.1.token == k.1)) [
        | inl own ↦
            let at : t.1.token ≡ k.1 = (text_eq.beq_iff t.1.token k.1).0 own in
            let same : is_invalid (send_push f k.1 p) ≡ true = rw (← at) gone in
            ground (arith, gone, alive, goes, removed, own, same)
        | inr other ↦ ground (arith, gone, alive, goes, removed, other)
      ]
    ]

named-Has :
    (token : Text) (ts : List ((ℕ × Text) × DeviceToken)) (t : (ℕ × Text) × DeviceToken)
    → Has t ts
    → t.1.token ≡ token
    → named token ts ≡ true
named-Has token [] t h at = elim h [ ]
named-Has token (s ∷ ss) t (inl same) at =
    let own : s.1.token ≡ token =
      ap (λ (x : (ℕ × Text) × DeviceToken). x.1.token) (sym same) ∙ at in
    ground (arith, (text_eq.beq_iff s.1.token token).1 own)
named-Has token (s ∷ ss) t (inr h) at = ground (arith, named-Has token ss t h at)

-- When its list of phones and the deletions are answered, Send forgets exactly those phones of the
-- user that Firebase calls invalid; the others, and those of other users, stay as they were.
pub push_ok :
    (f : Firebase) (c : Ctx) (user_id : ℕ) (p : Payload) (table : TokenTable) (k : ℕ × Text)
    → IsKeyed table
    → c.fails "devicetoken.ListByUser" user_id ≡ false
    → c.fails "devicetoken.DeleteByToken" user_id ≡ false
    → get (push f c user_id p table).1 k
      ≡ (if k.0 == user_id && is_invalid (send_push f k.1 p) then none else get table k)
unfolding push tokens_of_user IsKeyed
push_ok f c user_id p table k keyed listed deletes =
    let mine = λ (r : (ℕ × Text) × DeviceToken). r.1.user_id == user_id in
    let ts = sort_with seen_first (keep mine (rows table)) in
    let left = push_all_lem f c user_id p ts table k deletes in
    elim (Option-cases (get table k)) [
      | inl missing ↦ ground (arith, left, missing)
      | inr (t, found) ↦ elim (Bool-cases (k.0 == user_id)) [
        | inr other ↦ ground (arith, left, other)
        | inl own ↦
            let (user, token) = keyed k t found in
            let has = (Has-sort_with seen_first (k, t) (keep mine (rows table))).1 (
              (Has-keep mine (k, t) (rows table)).1 ((Has-rows table k t).1 found, ground arith)) in
            ground (arith, left, own, named-Has k.1 ts (k, t) has token)
      ]
    ]

pub empty-IsKeyed : IsKeyed empty
unfolding IsKeyed
empty-IsKeyed k t found = absurd (cc (found, get-empty {V = DeviceToken} k))

pub save_token-IsKeyed :
    (c : Ctx) (t : DeviceToken) (table : TokenTable)
    → IsKeyed table
    → IsKeyed (save_token c t table).1
unfolding IsKeyed save_token
save_token-IsKeyed c t table keyed k u found =
    elim (Bool-cases (c.fails "devicetoken.Save" t.user_id)) [
      | inl failing ↦ keyed k u (ground (arith, failing, found))
      | inr alive ↦ elim (Option-cases (get table (t.user_id, t.token))) [
        | inl missing ↦ put_row (completed c t) (refl, refl) (ground (arith, alive, missing, found))
        | inr (old, there) ↦
            put_row (record old { last_seen_at = c.now }) (keyed (t.user_id, t.token) old there)
              (ground (arith, alive, there, found))
      ]
    ]
  where
    put_row :
        (row : DeviceToken)
        → (row.user_id ≡ t.user_id) × (row.token ≡ t.token)
        → get (put table (t.user_id, t.token) row) k ≡ some u
        → (u.user_id ≡ k.0) × (u.token ≡ k.1)
    put_row row own stored = elim (Bool-cases (◌==◌ {A = ℕ × Text} (t.user_id, t.token) k)) [
      | inr other ↦
          keyed k u (ground (arith, other, stored, get-put table (t.user_id, t.token) k row))
      | inl same ↦
          let at : (t.user_id, t.token) ≡ k = (pair_eq.beq_iff (t.user_id, t.token) k).0 same in
          let is : some row ≡ some u =
            ground (arith, same, stored, get-put table (t.user_id, t.token) k row) in
          let one : row ≡ u = ground arith in
          (
            sym (ap (λ (x : DeviceToken). x.user_id) one) ∙ own.0 ∙ ap (λ (x : ℕ × Text). x.0) at,
            sym (ap (λ (x : DeviceToken). x.token) one) ∙ own.1 ∙ ap (λ (x : ℕ × Text). x.1) at,
          )
    ]
