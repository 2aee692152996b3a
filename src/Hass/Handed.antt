-- ===== src/Hass/Handed.antt =====
-- Credentials, CurrentToken and SetToken of service.go of backend/internal/hass: none of them leaves or
-- answers with an empty token.
use smartclass.Prelude.{
  ℕ, zero, suc, ◌+◌, Bool, true, false, Option, none, some, ◌≡◌, ◌⊎◌, inl, inr, refl, arith, nat_eq,
  Bool-cases,
}
use smartclass.Prelude.Text.{Text, is_nil, trim_space}
use smartclass.Platform.Errors.{Result, ok, err, Result-cases}
use smartclass.Platform.Context.{Ctx}
use smartclass.Hass.Credentials.{Credentials, TokenSet, Config, Remote, save}
use smartclass.Hass.Filled.{
  Issues, IsFilled, Ensures, Anything, Filled, Usable, bind-Ensures, remote-Ensures, save-Ensures,
  bootstrap-Ensures,
}
use smartclass.Hass.Service.{Hass, on_remote, on_row, bootstrap}
use smartclass.Hass.Access.{
  look, absent, live, expired, Look, refreshed, persist, stored, after_refresh, refresh_section,
  credentials, current_token, token_of, set_token, manual,
}

module _ (r : Remote) where
  persist-IsFilled :
      (c : Ctx) (cancelled : ℕ → Bool) (attempt left : ℕ) (cr : Credentials) (h : Hass r)
      → (Usable r) cr
      → IsFilled r h
      → IsFilled r (persist r c cancelled attempt left cr h)
  unfolding persist
  persist-IsFilled c cancelled attempt zero cr h full v = record {
    in_memory = v.in_memory;
    in_row = v.in_row;
  }
  persist-IsFilled c cancelled attempt (suc zero) cr h full v =
      elim (Result-cases (on_row r (save c attempt cr) h).0) [
        | inl (u, good) ↦ rw (good, persist) (save-Ensures r c attempt cr full h v).0
        | inr (e, bad) ↦ rw (bad, persist) (record { in_memory = v.in_memory; in_row = v.in_row })
      ]
  persist-IsFilled c cancelled attempt (suc (suc left)) cr h full v =
      let rest = persist-IsFilled c cancelled (attempt + 1) (suc left) cr h full v in
      elim (Result-cases (on_row r (save c attempt cr) h).0) [
        | inl (u, good) ↦ rw (good, persist) (save-Ensures r c attempt cr full h v).0
        | inr (e, bad) ↦ elim (Bool-cases (cancelled attempt)) [
          | inl gone ↦ rw (bad, gone, persist) v
          | inr going ↦ rw (bad, going, persist) rest
        ]
      ]

  -- What the other requests do in between
  abbrev pub Keeps : (Hass r → Hass r) → Type 0
  Keeps f = (h : Hass r) → IsFilled r h → IsFilled r (f h)

  stored-Ensures :
      (c : Ctx) (cancelled : ℕ → Bool) (ts : TokenSet) (creds : Option Credentials)
      → (Filled r) ts
      → Ensures r (Usable r) (stored r c cancelled ts creds)
  stored-Ensures c cancelled ts none full h v = (v, λ a p. absurd (cc p))
  stored-Ensures c cancelled ts (some cr) full h v = (
    persist-IsFilled c cancelled 1 4 (refreshed r c ts cr) _ full
        (record { in_memory = full; in_row = v.in_row }),
    λ a p. ground (arith, full),
  )

  after_refresh-Ensures :
      (c : Ctx) (cancelled : ℕ → Bool) (during : Hass r → Hass r) (asked : Result TokenSet)
      → Keeps during
      → ((ts : TokenSet) → asked ≡ ok ts → (Filled r) ts)
      → Ensures r (Usable r) (after_refresh r c cancelled during asked)
  after_refresh-Ensures c cancelled during (err e) keeps full h v = (v, λ a p. absurd (cc p))
  after_refresh-Ensures c cancelled during (ok ts) keeps full h v =
      stored-Ensures c cancelled ts (during h).creds (full ts refl) (during h) (keeps h v)

  Look-cases :
      (l : Look)
      → (l ≡ absent) ⊎ (((cr : Credentials) × (l ≡ live cr)) ⊎ ((t : Text) × (l ≡ expired t)))
  Look-cases absent = inl refl
  Look-cases (live cr) = inr (inl (cr, refl))
  Look-cases (expired t) = inr (inr (t, refl))

  look_filled :
      (first : Bool) (now : ℕ) (creds : Option Credentials) (cr : Credentials)
      → look first now creds ≡ live cr
      → (Usable r) cr
  look_filled first now none cr p = absurd (cc p)
  look_filled first now (some x) cr p = ground arith

  refresh_section-Ensures :
      (i : Issues r) (cfg : Config) (c : Ctx) (cancelled : ℕ → Bool) (during : Hass r → Hass r)
      → Keeps during
      → Ensures r (Usable r) (refresh_section r cfg c cancelled during)
  unfolding refresh_section
  refresh_section-Ensures i cfg c cancelled during keeps h v =
      elim (Look-cases (look false c.now h.creds)) [
        | inl gone ↦ rw (gone, refresh_section) (bootstrap-Ensures r i cfg c h v)
        | inr (inl (cr, serves)) ↦
            let full = look_filled false c.now h.creds cr serves in
            rw (serves, refresh_section) (v, λ a p. ground (arith, full))
        | inr (inr (token, old)) ↦
            rw (old, refresh_section)
              (after_refresh-Ensures c cancelled during (r.refresh_access_token token h.remote).0
                keeps (i.refresh_filled token h.remote)
                (on_remote r (r.refresh_access_token token) h).1
                (record { in_memory = v.in_memory; in_row = v.in_row }))
      ]

  credentials-Ensures :
      (i : Issues r) (cfg : Config) (c : Ctx) (cancelled : ℕ → Bool)
      (between during : Hass r → Hass r)
      → Keeps between
      → Keeps during
      → Ensures r (Usable r) (credentials r cfg c cancelled between during)
  unfolding credentials
  credentials-Ensures i cfg c cancelled between during kept keeps h v =
      elim (Look-cases (look true c.now h.creds)) [
        | inl gone ↦ rw (gone, credentials) (bootstrap-Ensures r i cfg c h v)
        | inr (inl (cr, serves)) ↦
            let full = look_filled true c.now h.creds cr serves in
            rw (serves, credentials) (v, λ a p. ground (arith, full))
        | inr (inr (token, old)) ↦
            rw (old, credentials)
              (refresh_section-Ensures i cfg c cancelled during keeps (between h) (kept h v))
      ]

  set_token-Ensures : (c : Ctx) (raw : Text) → Ensures r (Anything r) (set_token r c raw)
  unfolding set_token
  set_token-Ensures c raw h v = elim (Bool-cases (is_nil (trim_space raw))) [
    | inl empty ↦ rw empty (v, λ a p. tt)
    | inr full ↦ rw full (
        bind-Ensures r (Anything r) (Anything r) (on_remote r (r.list_entities (trim_space raw))) _
          (remote-Ensures r (Anything r) (r.list_entities (trim_space raw)) (λ s a p. tt))
          (λ x y.
            bind-Ensures r (Anything r) (Anything r)
              (on_row r (save c 1 (manual r c (trim_space raw)))) _
              (save-Ensures r c 1 (manual r c (trim_space raw)) full)
              (λ z w g u. (record { in_memory = full; in_row = u.in_row }, λ a p. tt)))
          h v)
  ]

  -- Where Home Assistant's client hands out no empty access token, no method of the service caches or
  -- stores one, and Credentials and CurrentToken never answer with one. What other requests do before
  -- the lock of a refresh is held, and while the refresh is under way, may be anything of the kind.
  pub tokens-IsFilled :
      (i : Issues r) (cfg : Config) (c : Ctx) (cancelled : ℕ → Bool)
      (between during : Hass r → Hass r) (raw : Text) (h : Hass r)
      → Keeps between
      → Keeps during
      → IsFilled r h
      → IsFilled r (bootstrap r cfg c h).1
        × IsFilled r (set_token r c raw h).1
        × IsFilled r (current_token r cfg c cancelled between during h).1
        × ((cr : Credentials)
            → (credentials r cfg c cancelled between during h).0 ≡ ok cr
            → is_nil cr.token ≡ false)
        × ((t : Text)
            → (current_token r cfg c cancelled between during h).0 ≡ ok t
            → is_nil t ≡ false)
  unfolding current_token
  tokens-IsFilled i cfg c cancelled between during raw h kept keeps v =
      let (after, usable_token) =
        credentials-Ensures i cfg c cancelled between during kept keeps h v in
      (
        (bootstrap-Ensures r i cfg c h v).0,
        (set_token-Ensures c raw h v).0,
        after,
        usable_token,
        token_filled (credentials r cfg c cancelled between during h).0 usable_token,
      )
    where
      token_filled :
          (got : Result Credentials)
          → ((cr : Credentials) → got ≡ ok cr → is_nil cr.token ≡ false)
          → (t : Text) → token_of r got ≡ ok t
          → is_nil t ≡ false
      token_filled (ok cr) full t p = let here = full cr refl in ground (arith, here)
      token_filled (err e) full t p = absurd (cc p)
