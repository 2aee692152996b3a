-- ===== src/Hass/Refresh.antt =====
-- Who refreshes the access token of Home Assistant, and what is left of a token that is set meanwhile.
use smartclass.Prelude.{
  ℕ, zero, suc, ◌+◌, ◌≤◌, ◌<◌, Bool, true, false, Option, none, some, ◌≡◌, inl, inr, refl, nat_eq,
  arith, Bool-cases,
}
use smartclass.Prelude.Text.{Text, is_nil, trim_space}
use smartclass.Platform.Errors.{ok, Result-cases}
use smartclass.Platform.Context.{Ctx}
use smartclass.Hass.Credentials.{
  Credentials, needs_refresh, TokenSet, Config, Remote, save, stamped,
}
use smartclass.Hass.Service.{Hass, on_remote, on_row}
use smartclass.Hass.Access.{
  live, expired, look, refreshed, persist, refresh_section, credentials, set_token, manual,
}

module _ (r : Remote) where
  -- Whether the new token could be stored or not, it is the one that is cached, and Home Assistant
  -- is not asked again.
  persist_keeps :
      (c : Ctx) (cancelled : ℕ → Bool) (attempt left : ℕ) (cr : Credentials) (h : Hass r)
      → ((persist r c cancelled attempt left cr h).creds ≡ h.creds)
        × ((persist r c cancelled attempt left cr h).remote ≡ h.remote)
  unfolding persist
  persist_keeps c cancelled attempt zero cr h = (refl, refl)
  persist_keeps c cancelled attempt (suc zero) cr h =
      elim (Result-cases (on_row r (save c attempt cr) h).0) [
        | inl (u, good) ↦ ground arith
        | inr (e, bad) ↦ ground arith
      ]
  persist_keeps c cancelled attempt (suc (suc left)) cr h =
      let rest = persist_keeps c cancelled (attempt + 1) (suc left) cr h in
      elim (Result-cases (on_row r (save c attempt cr) h).0) [
        | inl (u, good) ↦ ground arith
        | inr (e, bad) ↦ ground (arith, rest)
      ]

  look_again :
      (now : ℕ) (creds : Option Credentials) (token : Text)
      → look true now creds ≡ expired token
      → (cr : Credentials) × (creds ≡ some cr)
        × (cr.refresh_token ≡ token)
        × (look false now creds ≡ expired token)
  look_again now none token h = absurd (ground arith)
  look_again now (some cr) token h = (cr, refl, ground arith, ground arith)

  -- What a request does that refreshes the token: it changes the credentials that it finds then.
  refreshes :
      (cfg : Config) (c : Ctx) (cancelled : ℕ → Bool) (during : Hass r → Hass r) (h : Hass r)
      (token : Text) (ts : TokenSet) (cr : Credentials)
      → look true c.now h.creds ≡ expired token
      → (on_remote r (r.refresh_access_token token) h).0 ≡ ok ts
      → (during (on_remote r (r.refresh_access_token token) h).1).creds ≡ some cr
      → let step = credentials r cfg c cancelled (λ g. g) during h in
        (step.0 ≡ ok (refreshed r c ts cr)) × (step.1.creds ≡ some (refreshed r c ts cr))
  unfolding credentials refresh_section
  refreshes cfg c cancelled during h token ts cr seen answered found =
      let (old, there, own, again) = look_again c.now h.creds token seen in
      let g = during (on_remote r (r.refresh_access_token token) h).1 in
      let kept =
        persist_keeps c cancelled 1 4 (refreshed r c ts cr)
          (record g { creds = some (refreshed r c ts cr) }) in
      ground (arith, again, kept)

  second :
      (cfg : Config) (c : Ctx) (cancelled : ℕ → Bool) (during : Hass r → Hass r) (h g : Hass r)
      (cr : Credentials) (token : Text)
      → look true c.now h.creds ≡ expired token
      → look false c.now g.creds ≡ live cr
      → credentials r cfg c cancelled (λ x. g) during h ≡ (ok cr, g)
  unfolding credentials refresh_section
  second cfg c cancelled during h g cr token seen again = ground arith

  -- When a request has refreshed the access token, and Home Assistant gave it a token that is not
  -- empty and still serves for more than a minute, a request that has also seen the old token expired,
  -- and comes second to the lock, gets the new credentials, asks Home Assistant for nothing, and
  -- changes nothing.
  pub refreshed_once :
      (cfg : Config) (c c' : Ctx) (cancelled cancelled' : ℕ → Bool) (during' : Hass r → Hass r)
      (h : Hass r) (cr : Credentials) (token token' : Text)
      → look true c.now h.creds ≡ expired token
      → look true c'.now h.creds ≡ expired token'
      → (credentials r cfg c cancelled (λ g. g) (λ g. g) h).0 ≡ ok cr
      → is_nil cr.token ≡ false
      → needs_refresh c'.now cr ≡ false
      → let first = (credentials r cfg c cancelled (λ g. g) (λ g. g) h).1 in
        credentials r cfg c' cancelled' (λ g. first) during' h ≡ (ok cr, first)
  unfolding credentials refresh_section
  refreshed_once cfg c c' cancelled cancelled' during' h cr token token' seen seen' answered filled
        serves =
      let (old, there, own, again) = look_again c.now h.creds token seen in
      elim (Result-cases (on_remote r (r.refresh_access_token token) h).0) [
        | inr (e, failed) ↦ absurd (ground (arith, again))
        | inl (ts, good) ↦
            let (result, cached) =
              refreshes cfg c cancelled (λ g. g) h token ts old seen good there in
            let same : refreshed r c ts old ≡ cr = ground arith in
            let here : look false c'.now (credentials r cfg c cancelled (λ g. g) (λ g. g) h).1.creds
                ≡ live cr =
              ground (arith, cached, same) in
            second cfg c' cancelled' during' h (credentials r cfg c cancelled (λ g. g) (λ g. g) h).1
              cr token' seen' here
      ]

  set_token_cached :
      (c : Ctx) (raw : Text) (g : Hass r)
      → (set_token r c raw g).0 ≡ ok tt
      → (set_token r c raw g).1.creds ≡ some (manual r c (trim_space raw))
  unfolding set_token
  set_token_cached c raw g h =
      elim (Result-cases (on_remote r (r.list_entities (trim_space raw)) g).0) [
        | inr (e, failed) ↦ absurd (ground arith)
        | inl (u, good) ↦
            let g' = (on_remote r (r.list_entities (trim_space raw)) g).1 in
            elim (Result-cases (on_row r (save c 1 (manual r c (trim_space raw))) g').0) [
              | inr (e, failed) ↦ absurd (ground arith)
              | inl (v, stored) ↦ ground arith
            ]
      ]

  -- A token that an admin sets while a refresh is under way is lost: when Home Assistant answers the
  -- refresh, the cached credentials are its new tokens, not the token that SetToken has accepted.
  pub set_token_lost :
      (cfg : Config) (c c' : Ctx) (cancelled : ℕ → Bool) (h : Hass r) (token raw : Text)
      (ts : TokenSet)
      → look true c.now h.creds ≡ expired token
      → (on_remote r (r.refresh_access_token token) h).0 ≡ ok ts
      → (set_token r c' raw (on_remote r (r.refresh_access_token token) h).1).0 ≡ ok tt
      → let after = (credentials r cfg c cancelled (λ g. g) (λ g. (set_token r c' raw g).1) h).1 in
        after.creds ≡ some (refreshed r c ts (manual r c' (trim_space raw)))
  set_token_lost cfg c c' cancelled h token raw ts seen answered set =
      (refreshes cfg c cancelled (λ g. (set_token r c' raw g).1) h token ts
        (manual r c' (trim_space raw)) seen answered
        (set_token_cached c' raw (on_remote r (r.refresh_access_token token) h).1 set)).1

  -- The new token is stored if one of the four attempts is answered and the request is not cancelled.
  persist_row :
      (c : Ctx) (cancelled : ℕ → Bool) (attempt left i : ℕ) (cr : Credentials) (h : Hass r)
      → ((j : ℕ) → cancelled j ≡ false)
      → attempt ≤ i
      → i < attempt + left
      → c.fails "hass.Save" i ≡ false
      → (persist r c cancelled attempt left cr h).row ≡ some (stamped c cr)
  unfolding persist save
  persist_row c cancelled attempt zero i cr h going from to alive = absurd (omega (arith, from, to))
  persist_row c cancelled attempt (suc zero) i cr h going from to alive =
      let last : attempt ≡ i = omega (arith, from, to) in
      let fine : c.fails "hass.Save" attempt ≡ false = rw last alive in ground (arith, fine)
  persist_row c cancelled attempt (suc (suc left)) i cr h going from to alive =
      elim (Bool-cases (c.fails "hass.Save" attempt)) [
        | inr fine ↦ ground (arith, fine)
        | inl failing ↦
            let later : attempt + 1 ≤ i = ground (arith, from, failing, alive) in
            let rest =
              persist_row c cancelled (attempt + 1) (suc left) i cr h going later
                (omega (arith, to)) alive in
            ground (arith, failing, going attempt, rest)
      ]

  -- When no other request comes between and the request is not cancelled, the new token is stored if
  -- one of the four attempts to store it is answered.
  pub refreshed_stored :
      (cfg : Config) (c : Ctx) (cancelled : ℕ → Bool) (h : Hass r) (token : Text) (ts : TokenSet)
      (cr : Credentials) (i : ℕ)
      → look true c.now h.creds ≡ expired token
      → h.creds ≡ some cr
      → (on_remote r (r.refresh_access_token token) h).0 ≡ ok ts
      → ((j : ℕ) → cancelled j ≡ false)
      → 1 ≤ i
      → i ≤ 4
      → c.fails "hass.Save" i ≡ false
      → (credentials r cfg c cancelled (λ g. g) (λ g. g) h).1.row
        ≡ some (stamped c (refreshed r c ts cr))
  unfolding credentials refresh_section
  refreshed_stored cfg c cancelled h token ts cr i seen found answered going from to alive =
      let (old, there, own, again) = look_again c.now h.creds token seen in
      let g = (on_remote r (r.refresh_access_token token) h).1 in
      let row =
        persist_row c cancelled 1 4 i (refreshed r c ts cr)
          (record g { creds = some (refreshed r c ts cr) }) going from (omega (arith, to)) alive in
      ground (arith, again, row)
