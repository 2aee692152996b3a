-- ===== src/Auth/Service.antt =====
-- service.go of backend/internal/auth. Logging and metrics are left out: they change no state that
-- the service reads. Hashing of passwords is bcrypt's, and the token library's part is `Jwt`.
use smartclass.Prelude.{
  none, ℕ, String, Bool, true, false, not, ◌||◌, [], ◌==◌, nat_eq, text_eq, if◌then◌else◌,
}
use smartclass.Prelude.Text.{Text, text, is_nil, trim_space, to_lower}
use smartclass.Platform.Errors
use smartclass.Platform.Errors.{
  Error, Result, ok, err, not_found, not_found_as, refresh_unknown, refresh_already_used, internal,
  bad_request, invalid_refresh, invalid_credentials, reject_if,
}
use smartclass.Platform.Exec.{Exec, read, lift, pure, raise, ◌>>=◌}
use smartclass.Platform.Context.{Ctx}
use smartclass.User.{Role, role_valid}
use smartclass.User.Hasher.{Hasher, hashed}
use smartclass.User.Repository
use smartclass.User.Repository.{User}
use smartclass.Tokens.{Claims, Jwt, Pair, TokenKind, access, refresh, jti, issue, parse}
use smartclass.Auth.Store
use smartclass.Auth.Store.{RefreshStatus, is_live, is_used, track, status, mark_used, revoke_user}

pub record Db : Type 0 where
  pub users : Repository.Table
  pub tokens : Store.Tokens

-- A statement on one of the two tables.
abbrev pub on_users : {A : Type 0} → Exec Repository.Table A → Exec Db A
on_users m db = ((m db.users).0, record db { users = (m db.users).1 })

abbrev pub on_tokens : {A : Type 0} → Exec Store.Tokens A → Exec Db A
on_tokens m db = ((m db.tokens).0, record db { tokens = (m db.tokens).1 })

unfoldable pub normalize_email : Text → Text
normalize_email e = to_lower (trim_space e)

pub record LoginResult (Token : Type 0) : Type 0 where
  pub user : User
  pub tokens : Pair Token

-- issuePair: the pair is handed out only when its refresh token is tracked.
unfoldable pub issue_pair : (j : Jwt) → Ctx → User → Exec Db (LoginResult j.Token)
issue_pair j c u = lift (issue j c u.id u.role) >>= λ pair.
    on_tokens (track c pair.refresh_jti u.id pair.refresh_expires_at) >>= λ _.
    pure (record { user = u; tokens = pair })

pub record RegisterInput : Type 0 where
  pub email : Text
  pub password : Text
  pub full_name : Text
  pub role : Role
  pub language : Text
  pub phone : Text

-- The account that Register creates; the default language is "kz".
abbrev pub account_of : Ctx → RegisterInput → String → User
account_of c input hash = record {
  id = c.fresh 0;
  email = normalize_email input.email;
  password_hash = hash;
  full_name = trim_space input.full_name;
  role = input.role;
  language = if is_nil input.language then text "kz" else input.language;
  avatar_url = [];
  phone = input.phone;
  birth_date = none;
  created_at = 0;
  updated_at = 0;
}

unfoldable pub register : (j : Jwt) → Hasher → Ctx → RegisterInput → Exec Db (LoginResult j.Token)
register j h c input = lift (reject_if (not (role_valid input.role)) bad_request) >>= λ _.
    lift (hashed (h.hash input.password)) >>= λ hash.
    on_users (Repository.create c (account_of c input hash)) >>= λ u. issue_pair j c u

-- Compare of Login: a wrong password is the same error as an unknown address.
abbrev compared : Hasher → Text → User → Result User
compared h password u = if h.compare u.password_hash password then ok u else err invalid_credentials

unfoldable pub authenticate : Hasher → Ctx → Repository.Table → Text → Text → Result User
authenticate h c users email password =
    Errors.◌>>=◌
      (not_found_as invalid_credentials (Repository.get_by_email c users (normalize_email email)))
      (compared h password)

unfoldable pub login : (j : Jwt) → Hasher → Ctx → Text → Text → Exec Db (LoginResult j.Token)
login j h c email password =
    read (λ db. authenticate h c db.users email password) >>= λ u. issue_pair j c u

abbrev is_refresh : TokenKind → Bool
is_refresh access = false
is_refresh refresh = true

-- The claims of a token that may be rotated: a valid refresh token with an identifier.
unfoldable pub refresh_claims : (j : Jwt) → Ctx → j.Token → Result Claims
refresh_claims j c token = elim (parse j c.now token) [
  | err e ↦ err invalid_refresh
  | ok cl ↦ if not (is_refresh cl.kind) || jti j cl == 0 then err invalid_refresh else ok cl
]

-- `if errors.Is(err, ErrRefreshUnknown) { return nil, ErrInvalidRefresh }`
abbrev unknown_as_invalid : Result RefreshStatus → Result RefreshStatus
unknown_as_invalid (err refresh_unknown) = err invalid_refresh
unknown_as_invalid r = r

-- A replay: every live token of the user is revoked, and whether that succeeds or not the
-- request is refused.
unfoldable pub burn : {A : Type 0} → Ctx → ℕ → Exec Db A
burn c user_id db = (err invalid_refresh, (on_tokens (revoke_user c user_id) db).1)

-- What follows MarkUsed.
unfoldable pub settle : Ctx → ℕ → Result (Unit {0}) → Exec Db (Unit {0})
unfolding burn
settle c user_id (ok u) db = (ok tt, db)
settle c user_id (err refresh_already_used) db = burn c user_id db
settle c user_id (err e) db = (err e, db)

unfoldable pub redeem : Ctx → ℕ → ℕ → Exec Db (Unit {0})
unfolding settle
redeem c id user_id db = let r = on_tokens (mark_used c id) db in settle c user_id r.0 r.1

unfoldable pub rotate : (j : Jwt) → Ctx → Claims → Exec Db (LoginResult j.Token)
rotate j c cl =
    read (λ db. not_found_as invalid_refresh (Repository.get_by_id c db.users cl.user_id)) >>= λ u.
    issue_pair j c u

-- Refresh. `meanwhile` is what other requests do to the tables between the two statements that
-- read the token's row and mark it used.
unfoldable pub refresh_tokens :
    (j : Jwt) → Ctx → (Db → Db) → j.Token → Exec Db (LoginResult j.Token)
unfolding burn
refresh_tokens j c meanwhile token = lift (refresh_claims j c token) >>= λ cl.
    read (λ db. unknown_as_invalid (status c db.tokens (jti j cl))) >>= λ st.
    if is_used st
    then burn c st.user_id
    else if not (is_live st c.now)
    then raise invalid_refresh
    else (λ db. (redeem c (jti j cl) st.user_id >>= λ _. rotate j c cl) (meanwhile db))

unfoldable pub logout : Ctx → ℕ → Exec Db (Unit {0})
logout c user_id = on_tokens (revoke_user c user_id)
