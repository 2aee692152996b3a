-- ===== src/Notification/Inbox.antt =====
-- What the statements of backend/internal/notification/postgres.go do to a user's inbox.
use smartclass.Prelude.{
  ℕ, ◌≤◌, Bool, true, false, ◌&&◌, none, some, List, [], ◌∷◌, ◌≡◌, refl, ◌==◌, nat_eq,
  if◌then◌else◌, arith, length, keep, Has, Has-keep, Option-cases, inl, inr, subst,
}
use smartclass.Prelude.Dict.{get, map_values, rows, get-map_values, map_values_inv, Has-rows}
use smartclass.Prelude.Sort
use smartclass.Prelude.Sort.{sort_with, page, Has-sort_with, Has-page, length-take}
use smartclass.Prelude.Int.{ℤ, pos, negsuc}
use smartclass.Platform.Errors.{ok}
use smartclass.Platform.Context.{Ctx}
use smartclass.Notification.Repository
use smartclass.Notification.Repository.{
  Notification, is_unread, listed, count_unread, list_by_user, mark_read, mark_all_read, read_by,
  clamp_limit, clamp_offset, newest_first,
}

keep_none :
    {A : Type 0} (p : A → Bool) (xs : List A)
    → ((x : A) → Has x xs → p x ≡ false)
    → length (keep p xs) ≡ 0
keep_none p [] h = refl
keep_none p (x ∷ xs) h = ground (arith, h x (inl refl), keep_none p xs (λ y m. h y (inr m)))

-- When MarkAllRead is answered, its user has no unread notification, every notification of another
-- user is as it was, and one that its user had read keeps its time.
pub mark_all_read_ok :
    (c c' : Ctx) (user_id : ℕ) (t : Repository.Table)
    → c.fails "notification.MarkAllRead" user_id ≡ false
    → c'.fails "notification.CountUnread" user_id ≡ false
    → let t' = (mark_all_read c user_id t).1 in
      (count_unread c' t' user_id ≡ ok 0)
      × ((i : ℕ) (n : Notification)
          → get t i ≡ some n
          → get t' i
            ≡ some (
                if n.user_id == user_id && is_unread n
                then record n { read_at = some c.now }
                else n))
unfolding mark_all_read count_unread
mark_all_read_ok c c' user_id t alive alive' =
    let none_left =
      keep_none (listed user_id true) (rows (map_values (read_by c.now user_id) t)) all_read in
    (
      ground (arith, none_left),
      λ i n found. ground (arith, get-map_values (read_by c.now user_id) t i),
    )
  where
    all_read :
        (r : ℕ × Notification)
        → Has r (rows (map_values (read_by c.now user_id) t))
        → listed user_id true r ≡ false
    all_read r has =
        let found = (Has-rows (map_values (read_by c.now user_id) t) r.0 r.1).0 has in
        let (old, there, same) = map_values_inv (read_by c.now user_id) t r.0 r.1 found in
        let reads : listed user_id true (r.0, read_by c.now user_id r.0 old) ≡ false =
          elim (Option-cases old.read_at) [
            | inl unread ↦ ground arith
            | inr (at, read) ↦ ground arith
          ] in
        rw same reads

clamp_limit_le : (limit : ℤ) → clamp_limit limit ≤ 500
unfolding clamp_limit
clamp_limit_le (pos n) = ground arith
clamp_limit_le (negsuc n) = ground arith

-- A list has at most 500 entries, all of them stored notifications of the user, and unread ones
-- where only these are asked for.
pub list_by_user_sound :
    (c : Ctx) (t : Repository.Table) (user_id : ℕ) (only_unread : Bool) (limit offset : ℤ)
    (l : List (ℕ × Notification))
    → list_by_user c t user_id only_unread limit offset ≡ ok l
    → (length l ≤ 500)
      × ((i : ℕ) (n : Notification)
          → Has (i, n) l
          → (get t i ≡ some n) × (n.user_id ≡ user_id) × (only_unread ≡ true → n.read_at ≡ none))
unfolding list_by_user
list_by_user_sound c t user_id only_unread limit offset l h =
    let mine = listed user_id only_unread in
    let sorted = sort_with newest_first (keep mine (rows t)) in
    let shown : l ≡ page (clamp_limit limit) (clamp_offset offset) sorted = ground arith in
    (
      rw shown (
          omega (
            arith,
            length-take (clamp_limit limit) (Sort.drop (clamp_offset offset) sorted),
            clamp_limit_le limit,
          )),
      λ i n has.
          let kept =
            Has-page (i, n) (clamp_limit limit) (clamp_offset offset) sorted
              (subst (Has (i, n)) shown has) in
          let both =
            (Has-keep mine (i, n) (rows t)).0
              ((Has-sort_with newest_first (i, n) (keep mine (rows t))).0 kept) in
          (
            (Has-rows t i n).0 both.0,
            ground (arith, both.1),
            λ asked. elim (Option-cases n.read_at) [
              | inl unread ↦ unread
              | inr (at, read) ↦ absurd (ground (arith, both.1))
            ],
          ),
    )
