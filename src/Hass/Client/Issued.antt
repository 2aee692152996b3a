-- ===== src/Hass/Client/Issued.antt =====
-- The tokens that client.go of backend/internal/hass hands out.
use smartclass.Prelude.{
  false, Option, none, some, List, ◌≡◌, inl, inr, refl, arith, Bool-cases, leb,
}
use smartclass.Prelude.Text.{Text, text, is_nil}
use smartclass.Platform.Errors.{Result, ok, err, Result-cases}
use smartclass.Platform.Exec.{Exec, ◌>>=◌}
use smartclass.Hass.Credentials.{TokenSet}
use smartclass.Hass.Network.{Reply, TokenReply, Network, do_call}
use smartclass.Hass.Client.Tokens.{
  post, log_in, token_set, tokens_read, token_request, exchange_code, kept, refresh_access_token,
  login_with_password,
}
use smartclass.Hass.Client.Remote.{client}
use smartclass.Hass.Filled.{Issues}

-- What succeeds after a step succeeds on that step's result.
abbrev Yields : {S A : Type 0} → (A → Type 0) → Exec S A → Type 0
Yields {S} {A} P m = (s : S) (a : A) → (m s).0 ≡ ok a → P a

bind-Yields :
    {S A B : Type 0} (P : B → Type 0) (m : Exec S A) (f : A → Exec S B)
    → ((a : A) → Yields P (f a))
    → Yields P (m >>= f)
bind-Yields P m f good s b h = elim (Result-cases (m s).0) [
  | inr (e, failed) ↦ absurd (ground (arith, failed))
  | inl (a, fine) ↦ good a (m s).1 b (rw fine at h)
]

abbrev Filled : TokenSet → Type 0
Filled ts = is_nil ts.access_token ≡ false

module _ (net : Network) where
  token_set-Yields : (t : Option TokenReply) → Yields Filled (token_set net t)
  token_set-Yields none s ts h = absurd (cc h)
  token_set-Yields (some t) s ts h = ground arith

  tokens_read-Yields : (r : Reply) → Yields Filled (tokens_read net r)
  tokens_read-Yields r s ts h = elim (Bool-cases (leb 400 r.status)) [
    | inl refused ↦ absurd (ground (arith, refused))
    | inr fine ↦ token_set-Yields (net.decode_tokens r.body) s ts (ground (arith, fine))
  ]

  token_request-Yields : (form : List (Text × Text)) → Yields Filled (token_request net form)
  unfolding token_request
  token_request-Yields form =
      bind-Yields Filled (do_call net (post (text "/auth/token") form)) (tokens_read net)
        tokens_read-Yields

  exchange-Yields : (code : Text) → Yields Filled (exchange_code net code)
  unfolding exchange_code
  exchange-Yields code = token_request-Yields _

  login-Yields : (u p : Text) → Yields Filled (login_with_password net u p)
  unfolding login_with_password
  login-Yields u p = bind-Yields Filled (log_in net u p) (exchange_code net) exchange-Yields

  -- A refresh gives a token, and one to refresh it with next time.
  kept-Filled :
      (token : Text) (asked : Result TokenSet) (ts : TokenSet)
      → ((a : TokenSet) → asked ≡ ok a → Filled a)
      → kept net token asked ≡ ok ts
      → Filled ts × (is_nil token ≡ false → is_nil ts.refresh_token ≡ false)
  kept-Filled token (err e) ts full h = absurd (cc h)
  kept-Filled token (ok a) ts full h =
      let here = full a refl in
      elim (Bool-cases (is_nil a.refresh_token)) [
        | inl empty ↦ (ground (arith, here, empty), λ t. ground (arith, here, empty, t))
        | inr own ↦ (ground (arith, here, own), λ t. ground (arith, here, own))
      ]

  pub refresh_yields :
      (token : Text) (s : net.State) (ts : TokenSet)
      → (refresh_access_token net token s).0 ≡ ok ts
      → (is_nil ts.access_token ≡ false) × (is_nil token ≡ false → is_nil ts.refresh_token ≡ false)
  unfolding refresh_access_token
  refresh_yields token s ts h = kept-Filled token _ ts (λ a q. token_request-Yields _ s a q) h

  -- The client keeps the promise that the service relies on.
  pub client-Issues : Issues (client net)
  client-Issues = record {
    login_filled = login-Yields;
    exchange_filled = exchange-Yields;
    refresh_filled = λ token s ts h. (refresh_yields token s ts h).0;
  }
