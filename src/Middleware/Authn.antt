-- ===== src/Middleware/Authn.antt =====
-- auth.go of backend/internal/platform/httpx/middleware: who makes a request.
use smartclass.Prelude.{
  ℕ, String, ◌+◌, ◌≤◌, ◌<◌, Bool, true, false, Option, none, some, List, [], ◌∷◌, ◌++◌, ◌≡◌, ◌==◌,
  nat_eq, string_eq, text_eq, if◌then◌else◌, arith, ◌||◌,
}
use smartclass.Prelude.Text.{Text, text, is_nil}
use smartclass.Platform.Errors.{Result, ok, err, unauthorized, forbidden, invalid_token}
use smartclass.Platform.Context.{Ctx}
use smartclass.User.{Principal}
use smartclass.Realtime.Events.{strip_prefix, strip_prefix-append}
use smartclass.Tokens.{TokenKind, access, refresh, Pair, Jwt, Validation, claims_of, issue, parse}

-- A signed token is a text of the header.
pub record Wire (Token : Type 0) : Type 0 where
  pub to_text : Token → Text
  pub of_text : Text → Token
  pub of_text-to_text : (t : Token) → of_text (to_text t) ≡ t
  pub to_text_filled : (t : Token) → is_nil (to_text t) ≡ false

abbrev pub bearer : Text
bearer = text "Bearer "

-- extractToken, of the Authorization header
unfoldable pub extract_token : Text → Text
extract_token header = elim (strip_prefix header bearer) [ none ↦ [] | some token ↦ token ]

abbrev is_access : TokenKind → Bool
is_access access = true
is_access refresh = false

-- Authn: the principal for the handlers, or the status 401
unfoldable pub authn : (j : Jwt) → Wire j.Token → ℕ → Text → Result Principal
authn j w now header =
    let token = extract_token header in
    if is_nil token then err unauthorized else elim (parse j now (w.of_text token)) [
      | err e ↦ err invalid_token
      | ok cl ↦
          if is_access cl.kind
          then ok (record { user_id = cl.user_id; role = cl.role })
          else err invalid_token
    ]

abbrev pub role_in : String → List String → Bool
role_in role [] = false
role_in role (r ∷ rs) = r == role || role_in role rs

-- RequireRole, after Authn or without it
unfoldable pub require_role : List String → Option Principal → Result Principal
require_role roles none = err unauthorized
require_role roles (some p) = if role_in p.role roles then ok p else err forbidden

-- A header with a token that an issue handed out: what Authn reads of it.
abbrev pub header_of : {Token : Type 0} → Wire Token → Token → Text
header_of w t = bearer ++ w.to_text t

signed_ok :
    (j : Jwt) (user_id : ℕ) (role : String) (kind : TokenKind) (id issued now ttl : ℕ) (t : j.Token)
    → j.signed_string j.secret (claims_of j user_id role kind id issued ttl) ≡ some t
    → issued ≤ now
    → now < issued + ttl + 30
    → parse j now t ≡ ok (claims_of j user_id role kind id issued ttl)
unfolding parse
signed_ok j user_id role kind id issued now ttl t signed later early =
    let cl = claims_of j user_id role kind id issued ttl in
    let v : Validation = record {
      time = now;
      issuer = j.issuer;
      audience = j.issuer;
      leeway = 30;
    } in
    let read =
      j.parse-signed j.secret v cl t signed (ground (arith, string_eq.beq_iff j.issuer j.issuer)) in
    ground (arith, read)

extract_token-header_of :
    {Token : Type 0} (w : Wire Token) (t : Token) → extract_token (header_of w t) ≡ w.to_text t
unfolding extract_token
extract_token-header_of w t = ground (arith, strip_prefix-append bearer (w.to_text t))

-- Until thirty seconds after it expires, the access token of an issue authenticates the user to whom
-- it was issued, in the role at that time, and its refresh token authenticates nobody.
pub authn-issue :
    (j : Jwt) (w : Wire j.Token) (c : Ctx) (user_id : ℕ) (role : String) (pair : Pair j.Token)
    (now : ℕ)
    → issue j c user_id role ≡ ok pair
    → c.now ≤ now
    → (now < c.now + j.access_ttl + 30
        → authn j w now (header_of w pair.access) ≡ ok (record { user_id = user_id; role = role }))
      × (now < c.now + j.refresh_ttl + 30
          → authn j w now (header_of w pair.refresh) ≡ err invalid_token)
unfolding authn issue
authn-issue j w c user_id role pair now issued later = (
  λ early.
      let signed : j.signed_string j.secret
            (claims_of j user_id role access (c.fresh 1) c.now j.access_ttl)
          ≡ some pair.access =
        ground arith in
      let read =
        signed_ok j user_id role access (c.fresh 1) c.now now j.access_ttl pair.access signed later
          early in
      ground (
        arith,
        extract_token-header_of w pair.access,
        w.of_text-to_text pair.access,
        w.to_text_filled pair.access,
        read,
      ),
  λ early.
      let signed : j.signed_string j.secret
            (claims_of j user_id role refresh (c.fresh 2) c.now j.refresh_ttl)
          ≡ some pair.refresh =
        ground arith in
      let read =
        signed_ok j user_id role refresh (c.fresh 2) c.now now j.refresh_ttl pair.refresh signed
          later early in
      ground (
        arith,
        extract_token-header_of w pair.refresh,
        w.of_text-to_text pair.refresh,
        w.to_text_filled pair.refresh,
        read,
      ),
)
