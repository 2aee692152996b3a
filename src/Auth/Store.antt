-- ===== src/Auth/Store.antt =====
-- refreshstore.go and postgres.go of backend/internal/auth, over the table `refresh_tokens`, by
-- jti (migrations/00013_refresh_tokens.sql).
use smartclass.Prelude.{
  ℕ, Bool, true, false, ◌&&◌, ◌||◌, not, Option, none, some, ◌==◌, nat_eq, ltb, if◌then◌else◌,
}
use smartclass.Prelude.Dict.{Dict, get, put, map_values}
use smartclass.Platform.Errors.{Result, ok, err, internal, refresh_unknown, refresh_already_used}
use smartclass.Platform.Exec.{Exec}
use smartclass.Platform.Context.{Ctx, query}

pub record RefreshStatus : Type 0 where
  pub user_id : ℕ
  pub expires_at : ℕ
  pub used_at : Option ℕ
  pub revoked_at : Option ℕ

abbrev pub is_set : Option ℕ → Bool
is_set none = false
is_set (some t) = true

unfoldable pub is_live : RefreshStatus → ℕ → Bool
is_live st now = if is_set st.used_at || is_set st.revoked_at then false else ltb now st.expires_at

unfoldable pub is_used : RefreshStatus → Bool
is_used st = is_set st.used_at

abbrev pub Tokens : Type 0
Tokens = Dict ℕ RefreshStatus

-- INSERT: a second row for one jti breaks the primary key.
unfoldable pub track : Ctx → ℕ → ℕ → ℕ → Exec Tokens (Unit {0})
track c jti user_id expires_at m =
    if c.fails "auth.refresh.Track" jti then (err internal, m) else elim (get m jti) [
      | some old ↦ (err internal, m)
      | none ↦ (
        ok tt,
        put m jti (record {
          user_id = user_id;
          expires_at = expires_at;
          used_at = none;
          revoked_at = none;
        }),
      )
    ]

unfoldable pub status : Ctx → Tokens → ℕ → Result RefreshStatus
status c m jti =
    query c "auth.refresh.Status" jti
      (elim (get m jti) [ none ↦ err refresh_unknown | some st ↦ ok st ])

-- UPDATE … WHERE jti = $1 AND used_at IS NULL AND revoked_at IS NULL
unfoldable pub mark_used : Ctx → ℕ → Exec Tokens (Unit {0})
mark_used c jti m =
    if c.fails "auth.refresh.MarkUsed" jti then (err internal, m) else elim (get m jti) [
      | none ↦ (err refresh_already_used, m)
      | some st ↦
          if is_set st.used_at || is_set st.revoked_at
          then (err refresh_already_used, m)
          else (ok tt, put m jti (record st { used_at = some c.now }))
    ]

-- The row after UPDATE … SET revoked_at = now() WHERE user_id = $1 AND … IS NULL
abbrev pub revoked : ℕ → ℕ → RefreshStatus → RefreshStatus
revoked now user_id st =
    if st.user_id == user_id && not (is_set st.revoked_at) && not (is_set st.used_at)
    then record st { revoked_at = some now }
    else st

unfoldable pub revoke_user : Ctx → ℕ → Exec Tokens (Unit {0})
revoke_user c user_id m =
    if c.fails "auth.refresh.RevokeUser" user_id
    then (err internal, m)
    else (ok tt, map_values (λ jti st. revoked c.now user_id st) m)
