-- ===== src/Auth/Revocation.antt =====
-- What a replayed refresh token and a logout do to the other tokens of the user.
use smartclass.Prelude.{ℕ, String, true, false, some, ◌≡◌, ◌≢◌, ◌↔◌, refl, nat_eq, arith}
use smartclass.Prelude.Dict.{get, get-map_values}
use smartclass.Platform.Context.{Ctx}
use smartclass.Platform.Errors.{ok, err, invalid_refresh}
use smartclass.Tokens.{Jwt, Claims, jti}
use smartclass.Auth.Store.{RefreshStatus, is_live, is_used, status, mark_used, revoke_user}
use smartclass.Auth.Service.{
  Db, LoginResult, refresh_claims, burn, settle, redeem, refresh_tokens, logout,
}
use smartclass.Auth.Spent.{is_spent}

-- No refresh token of the user can be rotated any more.
pub record IsLoggedOut (user_id : ℕ) (db : Db) : Type 0 where
  pub dead :
      (id now : ℕ) (st : RefreshStatus)
      → get db.tokens id ≡ some st
      → st.user_id ≡ user_id
      → is_live st now ≡ false

-- The tokens of the other users are as they were.
pub record IsApart (user_id : ℕ) (db db' : Db) : Type 0 where
  pub others :
      (id : ℕ) (st : RefreshStatus)
      → st.user_id ≢ user_id
      → (get db.tokens id ≡ some st) ↔ (get db'.tokens id ≡ some st)

burn-IsLoggedOut :
    (A : Type 0) (c : Ctx) (user_id : ℕ) (db : Db)
    → c.fails "auth.refresh.RevokeUser" user_id ≡ false
    → IsLoggedOut user_id (burn {A = A} c user_id db).1
unfolding burn revoke_user is_live
burn-IsLoggedOut A c user_id db up = record {
  dead = λ id now st found own. grind (arith, get-map_values);
}

-- A logout that succeeds leaves the user no token that could be rotated, and the tokens of the
-- other users as they were.
pub logout-IsLoggedOut :
    (c : Ctx) (user_id : ℕ) (db : Db)
    → (logout c user_id db).0 ≡ ok tt
    → IsLoggedOut user_id (logout c user_id db).1
      × IsApart user_id db (logout c user_id db).1
      × ((logout c user_id db).1.users ≡ db.users)
unfolding logout revoke_user is_live
logout-IsLoggedOut c user_id db h = (
  record { dead = λ id now st found own. grind (arith, get-map_values) },
  record {
    others = λ id st other.
        (λ found. grind (arith, get-map_values), λ found. grind (arith, get-map_values));
  },
  grind (arith),
)

-- A token that was already used is a replay: the request is refused, and every token of the user
-- whom it was issued to is revoked.
pub refresh_tokens_replay :
    (j : Jwt) (c : Ctx) (meanwhile : Db → Db) (token : j.Token) (db : Db) (cl : Claims)
    (st : RefreshStatus)
    → refresh_claims j c token ≡ ok cl
    → get db.tokens (jti j cl) ≡ some st
    → is_used st ≡ true
    → c.fails "auth.refresh.Status" (jti j cl) ≡ false
    → c.fails "auth.refresh.RevokeUser" st.user_id ≡ false
    → ((refresh_tokens j c meanwhile token db).0 ≡ err invalid_refresh)
      × IsLoggedOut st.user_id (refresh_tokens j c meanwhile token db).1
unfolding refresh_tokens status
refresh_tokens_replay j c meanwhile token db cl st good found used up up' =
    let burnt : refresh_tokens j c meanwhile token db ≡ burn c st.user_id db = ground arith in
    rw burnt (refl, burn-IsLoggedOut (LoginResult j.Token) c st.user_id db up')

redeem_spent :
    (c : Ctx) (id user_id : ℕ) (db : Db) (st : RefreshStatus)
    → get db.tokens id ≡ some st
    → is_spent st ≡ true
    → c.fails "auth.refresh.MarkUsed" id ≡ false
    → redeem c id user_id db ≡ burn c user_id db
unfolding redeem settle mark_used
redeem_spent c id user_id db st found used up = ground arith

-- A token that is live when its row is read, and that another request has spent by the time it is
-- marked, is a replay too.
pub refresh_tokens_race :
    (j : Jwt) (c : Ctx) (meanwhile : Db → Db) (token : j.Token) (db : Db) (cl : Claims)
    (st st' : RefreshStatus)
    → refresh_claims j c token ≡ ok cl
    → get db.tokens (jti j cl) ≡ some st
    → is_live st c.now ≡ true
    → get (meanwhile db).tokens (jti j cl) ≡ some st'
    → is_spent st' ≡ true
    → ((op : String) (id : ℕ) → c.fails op id ≡ false)
    → ((refresh_tokens j c meanwhile token db).0 ≡ err invalid_refresh)
      × IsLoggedOut st.user_id (refresh_tokens j c meanwhile token db).1
unfolding refresh_tokens status is_live is_used
refresh_tokens_race j c meanwhile token db cl st st' good found live found' used up =
    let up1 = up "auth.refresh.Status" (jti j cl) in
    let up2 = up "auth.refresh.MarkUsed" (jti j cl) in
    let burnt : refresh_tokens j c meanwhile token db
        ≡ burn {A = LoginResult j.Token} c st.user_id (meanwhile db) =
      ground (arith, redeem_spent c (jti j cl) st.user_id (meanwhile db) st' found' used up2) in
    rw burnt (
      refl,
      burn-IsLoggedOut (LoginResult j.Token) c st.user_id (meanwhile db)
          (up "auth.refresh.RevokeUser" st.user_id),
    )
