-- ===== src/Auth/MemStore.antt =====
-- memstore.go of backend/internal/auth: the store that the package's tests use, and how far it
-- behaves as the table does.
use smartclass.Prelude.{
  ℕ, String, false, ◌&&◌, ◌||◌, not, none, some, ◌≡◌, ◌≢◌, ◌==◌, nat_eq, arith, if◌then◌else◌,
}
use smartclass.Prelude.Dict.{get, put, map_values}
use smartclass.Platform.Errors.{Result, ok, err, refresh_unknown, refresh_already_used}
use smartclass.Platform.Exec.{Exec}
use smartclass.Platform.Context.{Ctx}
use smartclass.Auth.Store.{
  RefreshStatus, Tokens, is_set, track, status, mark_used, revoked, revoke_user,
}

unfoldable pub mem_track : ℕ → ℕ → ℕ → Exec Tokens (Unit {0})
mem_track jti user_id expires_at m = (
  ok tt,
  put m jti
      (record { user_id = user_id; expires_at = expires_at; used_at = none; revoked_at = none }),
)

unfoldable pub mem_status : Tokens → ℕ → Result RefreshStatus
mem_status m jti = elim (get m jti) [ none ↦ err refresh_unknown | some st ↦ ok st ]

unfoldable pub mem_mark_used : Ctx → ℕ → Exec Tokens (Unit {0})
mem_mark_used c jti m = elim (get m jti) [
  | none ↦ (err refresh_unknown, m)
  | some st ↦
      if is_set st.used_at || is_set st.revoked_at
      then (err refresh_already_used, m)
      else (ok tt, put m jti (record st { used_at = some c.now }))
]

abbrev mem_revoked : ℕ → ℕ → RefreshStatus → RefreshStatus
mem_revoked now user_id st =
    if st.user_id == user_id && not (is_set st.used_at) && not (is_set st.revoked_at)
    then record st { revoked_at = some now }
    else st

unfoldable pub mem_revoke_user : Ctx → ℕ → Exec Tokens (Unit {0})
mem_revoke_user c user_id m = (ok tt, map_values (λ jti st. mem_revoked c.now user_id st) m)

mem_revoked_agrees :
    (now user_id : ℕ) (st : RefreshStatus) → mem_revoked now user_id st ≡ revoked now user_id st
mem_revoked_agrees now user_id st = ground arith

-- While no query fails, the store of the tests does what the table does: it reads a row, revokes a
-- user's tokens, tracks a new identifier and marks a tracked one, with the same results and the
-- same rows afterwards.
pub mem_agrees :
    (c : Ctx) (m : Tokens) (jti user_id expires_at : ℕ)
    → ((op : String) (id : ℕ) → c.fails op id ≡ false)
    → (mem_status m jti ≡ status c m jti)
      × (mem_revoke_user c user_id m ≡ revoke_user c user_id m)
      × (get m jti ≡ none → mem_track jti user_id expires_at m ≡ track c jti user_id expires_at m)
      × (get m jti ≢ none → mem_mark_used c jti m ≡ mark_used c jti m)
unfolding mem_status status mem_revoke_user revoke_user mem_track track mem_mark_used mark_used
mem_agrees c m jti user_id expires_at up =
    let up1 = up "auth.refresh.Status" jti in
    let up2 = up "auth.refresh.RevokeUser" user_id in
    let up3 = up "auth.refresh.Track" jti in
    let up4 = up "auth.refresh.MarkUsed" jti in
    (
      ground arith,
      rw up2 (λ i. (ok tt, map_values (λ jti st. mem_revoked_agrees c.now user_id st i) m)),
      λ fresh. ground arith,
      λ known. ground arith,
    )
