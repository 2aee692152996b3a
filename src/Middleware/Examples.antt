-- ===== src/Middleware/Examples.antt =====
-- A token library that signs two tokens only.
use smartclass.Prelude.{
  ℕ, String, ◌+◌, ◌<◌, Bool, true, false, ◌&&◌, Option, none, some, [], ◌∷◌, ◌≡◌, refl, ◌==◌,
  nat_eq, string_eq, text_eq, if◌then◌else◌, arith, Bool-cases, inl, inr, sym, ap, ◌∙◌,
}
use smartclass.Prelude.Text.{Text, text}
use smartclass.Platform.Errors.{ok, err, invalid_token}
use smartclass.Platform.Context.{Ctx}
use smartclass.Platform.Examples.{letters}
use smartclass.User.{role_teacher}
use smartclass.Tokens.{
  TokenKind, access, refresh, Claims, Pair, Jwt, Validation, claims_accepted, sign, issue,
}
use smartclass.Middleware.Authn.{Wire, header_of, authn, authn-issue}

abbrev same_kind : TokenKind → TokenKind → Bool
same_kind access access = true
same_kind access refresh = false
same_kind refresh access = false
same_kind refresh refresh = true

abbrev same_claims : Claims → Claims → Bool
same_claims a b =
    a.user_id == b.user_id
    && a.role == b.role
    && same_kind a.kind b.kind
    && a.issuer == b.issuer
    && a.subject == b.subject
    && a.audience == b.audience
    && a.issued_at == b.issued_at
    && a.not_before == b.not_before
    && a.expires_at == b.expires_at
    && a.id == b.id

same_kind_sound : (a b : TokenKind) → same_kind a b ≡ true → a ≡ b
same_kind_sound access access h = refl
same_kind_sound access refresh h = absurd (ground arith)
same_kind_sound refresh access h = absurd (ground arith)
same_kind_sound refresh refresh h = refl

same_claims_sound : (a b : Claims) → same_claims a b ≡ true → a ≡ b
same_claims_sound a b h =
    let kind = same_kind_sound a.kind b.kind (ground arith) in
    let role = (string_eq.beq_iff a.role b.role).0 (ground arith) in
    let issuer = (string_eq.beq_iff a.issuer b.issuer).0 (ground arith) in
    let audience = (string_eq.beq_iff a.audience b.audience).0 (ground arith) in
    let subject = (text_eq.beq_iff a.subject b.subject).0 (ground arith) in
    let id = (text_eq.beq_iff a.id b.id).0 (ground arith) in
    ground (arith, kind, role, issuer, audience, subject, id)

abbrev subject_of : ℕ → Text
subject_of u = letters.to_string u

abbrev claims : TokenKind → ℕ → ℕ → Claims
claims kind id ttl = record {
  user_id = 10;
  role = role_teacher;
  kind = kind;
  issuer = "smartclass";
  subject = subject_of 10;
  audience = "smartclass";
  issued_at = 100;
  not_before = 100;
  expires_at = 100 + ttl;
  id = subject_of id;
}

abbrev signs : String → Claims → Option Text
signs key cl =
    if same_claims cl (claims access 8 15)
    then some (text "a")
    else if same_claims cl (claims refresh 9 1000)
    then some (text "r")
    else none

abbrev known : Text → Option Claims
known t =
    if t == text "a"
    then some (claims access 8 15)
    else if t == text "r"
    then some (claims refresh 9 1000)
    else none

abbrev checked : Validation → Option Claims → Option Claims
checked v none = none
checked v (some cl) = if claims_accepted v cl then some cl else none

known_signed : (key : String) (cl : Claims) (t : Text) → signs key cl ≡ some t → known t ≡ some cl
known_signed key cl t h = elim (Bool-cases (same_claims cl (claims access 8 15))) [
  | inl first ↦
      let own = same_claims_sound cl (claims access 8 15) first in
      let at : text "a" ≡ t = ground arith in ap known (sym at) ∙ ap some (sym own)
  | inr other ↦ elim (Bool-cases (same_claims cl (claims refresh 9 1000))) [
    | inl second ↦
        let own = same_claims_sound cl (claims refresh 9 1000) second in
        let at : text "r" ≡ t = ground arith in ap known (sym at) ∙ ap some (sym own)
    | inr neither ↦ absurd (ground arith)
  ]
]

checks :
    (key : String) (v : Validation) (cl : Claims) (t : Text)
    → signs key cl ≡ some t
    → claims_accepted v cl ≡ true
    → checked v (known t) ≡ some cl
checks key v cl t signed good = rw (known_signed key cl t signed) (ground arith)

abbrev two_tokens : Jwt
two_tokens = record {
  Token = Text;
  secret = "key";
  access_ttl = 15;
  refresh_ttl = 1000;
  issuer = "smartclass";
  signed_string = signs;
  parse_with_claims = λ key v t. checked v (known t);
  parse-signed = checks;
  uuid_string = letters.to_string;
  uuid_parse = letters.parse;
  uuid_parse-string = letters.parse-to_string;
  uuid_string_filled = letters.to_string_filled;
}

abbrev behind_mark : Text → Text
behind_mark [] = []
behind_mark (c ∷ cs) = cs

abbrev marked : Wire Text
marked = record {
  to_text = λ t. 64 ∷ t;
  of_text = behind_mark;
  of_text-to_text = λ t. refl;
  to_text_filled = λ t. refl;
}

abbrev at : ℕ → Ctx
at now = record { now = now; fresh = λ n. 7 + n; fails = λ op id. false }

abbrev both : Pair Text
both = record {
  access = text "a";
  refresh = text "r";
  access_expires_at = 115;
  refresh_expires_at = 1100;
  refresh_jti = 9;
}

issued : issue two_tokens (at 100) 10 role_teacher ≡ ok both
unfolding issue sign
issued = refl

authn-issue_example :
    (120 < 100 + 15 + 30
      → authn two_tokens marked 120 (header_of marked both.access)
        ≡ ok (record { user_id = 10; role = role_teacher }))
    × (120 < 100 + 1000 + 30
        → authn two_tokens marked 120 (header_of marked both.refresh) ≡ err invalid_token)
authn-issue_example =
    authn-issue two_tokens marked (at 100) 10 role_teacher both 120 issued (omega arith)
