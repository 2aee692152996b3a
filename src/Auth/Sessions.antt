-- ===== src/Auth/Sessions.antt =====
-- A session from its login on: the tokens that a login hands out are those that a rotation takes.
use smartclass.Prelude.{
  ℕ, String, ◌+◌, ◌≤◌, ◌<◌, true, false, inl, inr, none, some, ◌≡◌, ◌≢◌, nat_eq, arith,
}
use smartclass.Prelude.Dict.{get, get-put}
use smartclass.Prelude.Text.{Text}
use smartclass.Platform.Context.{Ctx}
use smartclass.Platform.Errors.{ok, Result-cases}
use smartclass.User.Repository.{User, get_by_id}
use smartclass.User.Accounts.{IsAccounts}
use smartclass.User.Hasher.{Hasher}
use smartclass.Tokens.{Jwt, Claims, Pair, jti, sign, issue, parse-issue}
use smartclass.Auth.Store.{RefreshStatus, is_live, is_used, status, track, mark_used}
use smartclass.Auth.Service.{
  Db, LoginResult, issue_pair, authenticate, login, refresh_claims, redeem, settle, rotate,
  refresh_tokens,
}
use smartclass.Auth.Accounts.{authenticate_iff}

abbrev pub unspent : ℕ → ℕ → RefreshStatus
unspent user_id expires_at = record {
  user_id = user_id;
  expires_at = expires_at;
  used_at = none;
  revoked_at = none;
}

-- A pair that is handed out is that of the user, and its refresh token is tracked as unused.
pub issue_pair_ok :
    (j : Jwt) (c : Ctx) (u : User) (db : Db) (r : LoginResult j.Token)
    → (issue_pair j c u db).0 ≡ ok r
    → (r.user ≡ u)
      × (issue j c u.id u.role ≡ ok r.tokens)
      × ((issue_pair j c u db).1.users ≡ db.users)
      × (get (issue_pair j c u db).1.tokens r.tokens.refresh_jti
          ≡ some (unspent u.id r.tokens.refresh_expires_at))
unfolding issue_pair track
issue_pair_ok j c u db r h = (ground arith, ground arith, ground arith, grind (arith, get-put))

-- A pair is handed out when the database answers, the token library signs, and the new
-- identifier is in no row.
pub issue_pair_total :
    (j : Jwt) (c : Ctx) (u : User) (db : Db) (pair : Pair j.Token)
    → issue j c u.id u.role ≡ ok pair
    → c.fails "auth.refresh.Track" pair.refresh_jti ≡ false
    → get db.tokens pair.refresh_jti ≡ none
    → (issue_pair j c u db).0 ≡ ok (record { user = u; tokens = pair })
unfolding issue_pair track
issue_pair_total j c u db pair issued up fresh = ground arith

redeem_live :
    (c : Ctx) (id user_id : ℕ) (db : Db) (st : RefreshStatus)
    → get db.tokens id ≡ some st
    → is_live st c.now ≡ true
    → c.fails "auth.refresh.MarkUsed" id ≡ false
    → ((redeem c id user_id db).0 ≡ ok tt)
      × ((redeem c id user_id db).1.users ≡ db.users)
      × ((other : ℕ)
          → other ≢ id
          → get (redeem c id user_id db).1.tokens other ≡ get db.tokens other)
unfolding redeem settle mark_used is_live
redeem_live c id user_id db st found live up =
    (ground arith, ground arith, λ other ne. grind (arith, get-put))

-- A valid refresh token that was issued: what Refresh reads off it.
refresh_claims-issue :
    (j : Jwt) (c c' : Ctx) (user_id : ℕ) (role : String) (pair : Pair j.Token)
    → issue j c user_id role ≡ ok pair
    → c.now ≤ c'.now
    → c'.now < c.now + j.refresh_ttl
    → pair.refresh_jti ≢ 0
    → (cl : Claims) × (refresh_claims j c' pair.refresh ≡ ok cl)
      × (cl.user_id ≡ user_id)
      × (jti j cl ≡ pair.refresh_jti)
unfolding refresh_claims
refresh_claims-issue j c c' user_id role pair issued later early filled =
    let (cl, read, kind, own, id) =
      parse-issue j c user_id role pair c'.now issued later (ground arith) in
    (cl, ground arith, own, id)

expiry-issue :
    (j : Jwt) (c : Ctx) (user_id : ℕ) (role : String) (pair : Pair j.Token)
    → issue j c user_id role ≡ ok pair
    → pair.refresh_expires_at ≡ c.now + j.refresh_ttl
unfolding issue sign
expiry-issue j c user_id role pair issued = ground arith

-- A tracked, unspent and unexpired token of a stored user is rotated.
refresh_tracked :
    (j : Jwt) (c : Ctx) (token : j.Token) (db : Db) (cl : Claims) (u : User) (expires_at : ℕ)
    (pair : Pair j.Token)
    → refresh_claims j c token ≡ ok cl
    → get db.tokens (jti j cl) ≡ some (unspent cl.user_id expires_at)
    → c.now < expires_at
    → get db.users cl.user_id ≡ some u
    → ((op : String) (id : ℕ) → c.fails op id ≡ false)
    → issue j c u.id u.role ≡ ok pair
    → pair.refresh_jti ≢ jti j cl
    → get db.tokens pair.refresh_jti ≡ none
    → (refresh_tokens j c (λ d. d) token db).0 ≡ ok (record { user = u; tokens = pair })
unfolding refresh_tokens rotate status get_by_id is_used is_live
refresh_tracked j c token db cl u expires_at pair good found early stored up issued other fresh =
    let id = jti j cl in
    let st = unspent cl.user_id expires_at in
    let up1 = up "auth.refresh.Status" id in
    let up2 = up "users.GetByID" cl.user_id in
    let alive : is_live st c.now ≡ true = ground arith in
    let (marked, users, tokens) =
      redeem_live c id cl.user_id db st found alive (up "auth.refresh.MarkUsed" id) in
    let after = (redeem c id cl.user_id db).1 in
    let free : get after.tokens pair.refresh_jti ≡ none =
      cc (tokens pair.refresh_jti other, fresh) in
    let known : get after.users cl.user_id ≡ some u = cc (users, stored) in
    let paired =
      issue_pair_total j c u after pair issued (up "auth.refresh.Track" pair.refresh_jti) free in
    ground arith

-- What a login that succeeds leaves: its user is stored, and its refresh token tracked.
login_ok :
    (j : Jwt) (h : Hasher) (c : Ctx) (email password : Text) (db : Db) (r : LoginResult j.Token)
    → IsAccounts db.users
    → (login j h c email password db).0 ≡ ok r
    → c.fails "users.GetByEmail" 0 ≡ false
    → (issue j c r.user.id r.user.role ≡ ok r.tokens)
      × (get (login j h c email password db).1.users r.user.id ≡ some r.user)
      × (get (login j h c email password db).1.tokens r.tokens.refresh_jti
          ≡ some (unspent r.user.id r.tokens.refresh_expires_at))
unfolding login
login_ok j h c email password db r accounts done up =
    elim (Result-cases (authenticate h c db.users email password)) [
      | inr (e, refused) ↦ absurd (ground arith)
      | inl (u, accepted) ↦
          let passed : (issue_pair j c u db).0 ≡ ok r = ground arith in
          let (own, issued, users, tracked) = issue_pair_ok j c u db r passed in
          let (stored, addressed, compared) =
            (authenticate_iff h c db.users email password u accounts up).0.0 accepted in
          (ground arith, ground arith, ground arith)
    ]

-- Until it expires, the refresh token of a login can be rotated: the rotation hands the same user
-- a new pair, when the database answers both requests, the token library signs the new pair, and
-- the new identifier is in no row.
pub login-refresh :
    (j : Jwt) (h : Hasher) (c c' : Ctx) (email password : Text) (db : Db) (r : LoginResult j.Token)
    (pair : Pair j.Token)
    → IsAccounts db.users
    → (login j h c email password db).0 ≡ ok r
    → c.now ≤ c'.now
    → c'.now < c.now + j.refresh_ttl
    → r.tokens.refresh_jti ≢ 0
    → c.fails "users.GetByEmail" 0 ≡ false
    → ((op : String) (id : ℕ) → c'.fails op id ≡ false)
    → issue j c' r.user.id r.user.role ≡ ok pair
    → pair.refresh_jti ≢ r.tokens.refresh_jti
    → get (login j h c email password db).1.tokens pair.refresh_jti ≡ none
    → (refresh_tokens j c' (λ d. d) r.tokens.refresh (login j h c email password db).1).0
      ≡ ok (record { user = r.user; tokens = pair })
login-refresh j h c c' email password db r pair accounts done later early filled up up' issued other
      fresh =
    let (issued', stored, tracked) = login_ok j h c email password db r accounts done up in
    let (cl, good, own, id) =
      refresh_claims-issue j c c' r.user.id r.user.role r.tokens issued' later early filled in
    let expiry = expiry-issue j c r.user.id r.user.role r.tokens issued' in
    refresh_tracked j c' r.tokens.refresh (login j h c email password db).1 cl r.user
      r.tokens.refresh_expires_at pair good (cc (id, own, tracked)) (ground arith)
      (cc (own, stored)) up' issued (rw id other) fresh
