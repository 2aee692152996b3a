-- ===== src/Tokens.antt =====
-- backend/internal/platform/tokens: signed access and refresh tokens.
-- Signing, checking a signature and the spelling of uuids are golang-jwt's and google/uuid's; they
-- are the fields of `Jwt`. Times are in whole seconds, as in a JWT's numeric dates.
use smartclass.Prelude.{
  ℕ, String, ◌+◌, ◌≤◌, ◌<◌, Bool, true, false, ◌&&◌, Option, none, some, ◌≡◌, ◌==◌, nat_eq,
  string_eq, leb, ltb, if◌then◌else◌, arith,
}
use mathlib.Core.Path
use smartclass.Prelude.Text.{Text, is_nil}
use smartclass.Platform.Errors.{Result, ok, err, internal, invalid_token, ◌>>=◌}
use smartclass.Platform.Context.{Ctx}

pub data TokenKind : Type 0 where
  access refresh : TokenKind

pub record Claims : Type 0 where
  pub user_id : ℕ
  pub role : String
  pub kind : TokenKind
  pub issuer : String
  pub subject : Text
  pub audience : String
  pub issued_at : ℕ
  pub not_before : ℕ
  pub expires_at : ℕ
  pub id : Text

pub record Pair (Token : Type 0) : Type 0 where
  pub access : Token
  pub refresh : Token
  pub access_expires_at : ℕ
  pub refresh_expires_at : ℕ
  pub refresh_jti : ℕ

-- The options of jwt.ParseWithClaims in JWT.Parse.
pub record Validation : Type 0 where
  pub time : ℕ
  pub issuer : String
  pub audience : String
  pub leeway : ℕ

-- What golang-jwt checks of the claims under these options (an expiry is required).
abbrev pub claims_accepted : Validation → Claims → Bool
claims_accepted v cl =
    cl.issuer == v.issuer
    && cl.audience == v.audience
    && leb cl.not_before (v.time + v.leeway)
    && ltb v.time (cl.expires_at + v.leeway)

pub record Jwt : Type 1 where
  pub Token : Type 0  -- a signed token, a string in the source
  -- the JWT struct: its key, lifetimes and issuer
  pub secret : String
  pub access_ttl : ℕ
  pub refresh_ttl : ℕ
  pub issuer : String
  -- jwt.NewWithClaims(HS256, …).SignedString and jwt.ParseWithClaims
  pub signed_string : String → Claims → Option Token
  pub parse_with_claims : String → Validation → Token → Option Claims
  pub parse-signed :
      (key : String) (v : Validation) (cl : Claims) (t : Token)
      → signed_string key cl ≡ some t
      → claims_accepted v cl ≡ true
      → parse_with_claims key v t ≡ some cl
  -- uuid.UUID.String and uuid.Parse
  pub uuid_string : ℕ → Text
  pub uuid_parse : Text → Option ℕ
  pub uuid_parse-string : (u : ℕ) → uuid_parse (uuid_string u) ≡ some u
  pub uuid_string_filled : (u : ℕ) → is_nil (uuid_string u) ≡ false

-- Claims.JTI: uuid.Nil where the claim is missing or no uuid.
unfoldable pub jti : Jwt → Claims → ℕ
jti j cl = if is_nil cl.id then 0 else elim (j.uuid_parse cl.id) [ none ↦ 0 | some u ↦ u ]

abbrev pub claims_of : Jwt → ℕ → String → TokenKind → ℕ → ℕ → ℕ → Claims
claims_of j user_id role kind id now ttl = record {
  user_id = user_id;
  role = role;
  kind = kind;
  issuer = j.issuer;
  subject = j.uuid_string user_id;
  audience = j.issuer;
  issued_at = now;
  not_before = now;
  expires_at = now + ttl;
  id = j.uuid_string id;
}

-- JWT.sign: the token and its expiry
unfoldable pub sign : (j : Jwt) → ℕ → String → TokenKind → ℕ → ℕ → ℕ → Result (j.Token × ℕ)
sign j user_id role kind id now ttl =
    elim (j.signed_string j.secret (claims_of j user_id role kind id now ttl)) [
      | none ↦ err internal
      | some t ↦ ok (t, now + ttl)
    ]

-- JWT.Issue; `uuid.New()` is called for the access token first.
unfoldable pub issue : (j : Jwt) → Ctx → ℕ → String → Result (Pair j.Token)
unfolding sign
issue j c user_id role = do
  a ← sign j user_id role access (c.fresh 1) c.now j.access_ttl
  r ← sign j user_id role refresh (c.fresh 2) c.now j.refresh_ttl
  ok (record {
    access = a.0;
    refresh = r.0;
    access_expires_at = a.1;
    refresh_expires_at = r.1;
    refresh_jti = c.fresh 2;
  })

-- JWT.Parse, with its leeway of 30 seconds
unfoldable pub parse : (j : Jwt) → ℕ → j.Token → Result Claims
parse j now token =
    elim (j.parse_with_claims j.secret
      (record { time = now; issuer = j.issuer; audience = j.issuer; leeway = 30 }) token) [
        | none ↦ err invalid_token
        | some cl ↦ ok cl
      ]

-- A refresh token that was issued is read back, until thirty seconds after it expires, as the
-- claims of its user with the identifier under which it is tracked.
pub parse-issue :
    (j : Jwt) (c : Ctx) (user_id : ℕ) (role : String) (pair : Pair j.Token) (now : ℕ)
    → issue j c user_id role ≡ ok pair
    → c.now ≤ now
    → now < c.now + j.refresh_ttl + 30
    → (cl : Claims) × (parse j now pair.refresh ≡ ok cl)
      × (cl.kind ≡ refresh)
      × (cl.user_id ≡ user_id)
      × (jti j cl ≡ pair.refresh_jti)
unfolding issue parse jti
parse-issue j c user_id role pair now h later early =
    let cl = claims_of j user_id role refresh (c.fresh 2) c.now j.refresh_ttl in
    let v : Validation = record {
      time = now;
      issuer = j.issuer;
      audience = j.issuer;
      leeway = 30;
    } in
    let signed : j.signed_string j.secret cl ≡ some pair.refresh = ground arith in
    let read =
      j.parse-signed j.secret v cl pair.refresh signed
        (ground (arith, string_eq.beq_iff j.issuer j.issuer)) in
    (
      cl,
      rw (read, parse),
      Path.refl,
      Path.refl,
      ground (arith, j.uuid_parse-string (c.fresh 2), j.uuid_string_filled (c.fresh 2)),
    )
