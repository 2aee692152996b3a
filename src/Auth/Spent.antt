-- ===== src/Auth/Spent.antt =====
-- A refresh token that was used or revoked stays so: no request of the service brings it back.
use smartclass.Prelude.{
  ℕ, Bool, true, false, ◌||◌, Option, none, some, List, [], ◌∷◌, ◌≡◌, nat_eq, arith,
}
use smartclass.Prelude.Dict.{get, get-put, get-map_values}
use smartclass.Prelude.Text.{Text}
use smartclass.Platform.Context.{Ctx}
use smartclass.User.Repository.{User}
use smartclass.User.Hasher.{Hasher}
use smartclass.Tokens.{Jwt, Claims}
use smartclass.Auth.Store.{RefreshStatus, is_set, track, mark_used, revoke_user}
use smartclass.Auth.Service.{
  Db, LoginResult, RegisterInput, issue_pair, register, login, burn, settle, redeem, rotate,
  refresh_tokens, logout,
}
use smartclass.Auth.Requests.{
  Request, register_with, login_with, refresh_with, logout_all, perform, perform_all,
}

abbrev pub is_spent : RefreshStatus → Bool
is_spent st = is_set st.used_at || is_set st.revoked_at

abbrev pub spent_row : Option RefreshStatus → Bool
spent_row none = false
spent_row (some st) = is_spent st

abbrev pub spent : ℕ → Db → Bool
spent id db = spent_row (get db.tokens id)

pub spent-issue_pair :
    (j : Jwt) (c : Ctx) (u : User) (db : Db) (id : ℕ)
    → spent id db ≡ true
    → spent id (issue_pair j c u db).1 ≡ true
unfolding issue_pair track
spent-issue_pair j c u db id h = grind (arith, get-put)

pub spent-register :
    (j : Jwt) (hr : Hasher) (c : Ctx) (input : RegisterInput) (db : Db) (id : ℕ)
    → spent id db ≡ true
    → spent id (register j hr c input db).1 ≡ true
unfolding register
spent-register j hr c input db id h = grind (arith, spent-issue_pair)

pub spent-login :
    (j : Jwt) (hr : Hasher) (c : Ctx) (email password : Text) (db : Db) (id : ℕ)
    → spent id db ≡ true
    → spent id (login j hr c email password db).1 ≡ true
unfolding login
spent-login j hr c email password db id h = grind (arith, spent-issue_pair)

pub spent-logout :
    (c : Ctx) (user_id : ℕ) (db : Db) (id : ℕ)
    → spent id db ≡ true
    → spent id (logout c user_id db).1 ≡ true
unfolding logout revoke_user
spent-logout c user_id db id h = grind (arith, get-map_values)

pub spent-redeem :
    (c : Ctx) (k user_id : ℕ) (db : Db) (id : ℕ)
    → spent id db ≡ true
    → spent id (redeem c k user_id db).1 ≡ true
unfolding redeem settle burn mark_used revoke_user
spent-redeem c k user_id db id h = grind (arith, get-map_values, get-put)

spent-burn :
    (A : Type 0) (c : Ctx) (user_id : ℕ) (db : Db) (id : ℕ)
    → spent id db ≡ true
    → spent id (burn {A = A} c user_id db).1 ≡ true
unfolding burn revoke_user
spent-burn A c user_id db id h = grind (arith, get-map_values)

pub spent-rotate :
    (j : Jwt) (c : Ctx) (cl : Claims) (db : Db) (id : ℕ)
    → spent id db ≡ true
    → spent id (rotate j c cl db).1 ≡ true
unfolding rotate
spent-rotate j c cl db id h = grind (arith, spent-issue_pair)

-- Whatever the result, a request to rotate a token leaves every spent token spent, if what the
-- other requests do meanwhile does.
pub spent-refresh_tokens :
    (j : Jwt) (c : Ctx) (meanwhile : Db → Db) (token : j.Token) (db : Db) (id : ℕ)
    → ((d : Db) → spent id d ≡ true → spent id (meanwhile d) ≡ true)
    → spent id db ≡ true
    → spent id (refresh_tokens j c meanwhile token db).1 ≡ true
unfolding refresh_tokens
spent-refresh_tokens j c meanwhile token db id keeps h =
    let later = keeps db h in
    grind (arith, spent-burn (LoginResult j.Token) c, spent-rotate j c, spent-redeem c)

pub spent-perform :
    (j : Jwt) (hr : Hasher) (c : Ctx) (r : Request j.Token) (db : Db) (id : ℕ)
    → spent id db ≡ true
    → spent id (perform j hr c r db).1 ≡ true
unfolding perform
spent-perform j hr c (register_with input) db id h = grind (arith, spent-register)
spent-perform j hr c (login_with email password) db id h = grind (arith, spent-login)
spent-perform j hr c (refresh_with token) db id h =
    let after = spent-refresh_tokens j c (λ d. d) token db id (λ d k. k) h in ground arith
spent-perform j hr c (logout_all user_id) db id h = grind (arith, spent-logout)

-- Once a refresh token is used or revoked, no sequence of requests makes it usable again.
pub spent-perform_all :
    (j : Jwt) (hr : Hasher) (rs : List (Ctx × Request j.Token)) (db : Db) (id : ℕ)
    → spent id db ≡ true
    → spent id (perform_all j hr rs db) ≡ true
unfolding perform_all
spent-perform_all j hr [] db id h = h
spent-perform_all j hr ((c, r) ∷ rs) db id h =
    spent-perform_all j hr rs (perform j hr c r db).1 id (spent-perform j hr c r db id h)
