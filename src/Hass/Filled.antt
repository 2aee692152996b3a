-- ===== src/Hass/Filled.antt =====
-- The tokens that the service of backend/internal/hass holds and hands out are never empty.
use smartclass.Prelude.{
  ℕ, false, Option, none, some, ◌≡◌, inl, inr, refl, arith, nat_eq, Bool-cases, Option-cases, ◌∙◌,
}
use smartclass.Prelude.Text.{Text, is_nil}
use smartclass.Platform.Errors.{Result, ok, err, not_found, Result-cases}
use smartclass.Platform.Exec.{Exec, mapping, ◌>>=◌}
use smartclass.Platform.Context.{Ctx}
use smartclass.Hass.Credentials.{
  Credentials, OnboardingStatus, TokenSet, Config, Remote, load, save,
}
use smartclass.Hass.Service.{
  Hass, on_remote, on_row, noting, as_onboarded, owner_tokens, credentials_of, finished, cached,
  onboard, pending, usable, after_load, resume, bootstrap,
}

-- What Home Assistant's client promises of the tokens that it hands out
pub record Issues (r : Remote) : Type 0 where
  pub login_filled :
      (u p : Text) (s : r.State) (ts : TokenSet)
      → (r.login_with_password u p s).0 ≡ ok ts
      → is_nil ts.access_token ≡ false
  pub exchange_filled :
      (code : Text) (s : r.State) (ts : TokenSet)
      → (r.exchange_code code s).0 ≡ ok ts
      → is_nil ts.access_token ≡ false
  pub refresh_filled :
      (token : Text) (s : r.State) (ts : TokenSet)
      → (r.refresh_access_token token s).0 ≡ ok ts
      → is_nil ts.access_token ≡ false

abbrev pub HasToken : Option Credentials → Type 0
HasToken none = Unit
HasToken (some cr) = is_nil cr.token ≡ false

module _ (r : Remote) where
  pub record IsFilled (h : Hass r) : Type 0 where
    pub in_memory : HasToken h.creds
    pub in_row : HasToken h.row

  -- A method keeps the tokens filled, and what it returns has `P`.
  abbrev pub Ensures : {A : Type 0} → (A → Type 0) → Exec (Hass r) A → Type 0
  Ensures {A} P m = (h : Hass r) → IsFilled h → IsFilled (m h).1 × ((a : A) → (m h).0 ≡ ok a → P a)

  abbrev pub Anything : {A : Type 0} → A → Type 0
  Anything a = Unit {0}

  pub bind-Ensures :
      {A B : Type 0} (P : A → Type 0) (Q : B → Type 0) (m : Exec (Hass r) A)
      (f : A → Exec (Hass r) B)
      → Ensures P m
      → ((a : A) → P a → Ensures Q (f a))
      → Ensures Q (m >>= f)
  bind-Ensures P Q m f first then_ h v = elim (Result-cases (m h).0) [
    | inr (e, failed) ↦ rw failed ((first h v).0, λ b p. absurd (cc p))
    | inl (a, good) ↦ rw good (then_ a ((first h v).1 a good) (m h).1 (first h v).0)
  ]

  pub remote-Ensures :
      {A : Type 0} (P : A → Type 0) (m : Exec r.State A)
      → ((s : r.State) (a : A) → (m s).0 ≡ ok a → P a)
      → Ensures P (on_remote r m)
  remote-Ensures P m good h v =
      (record { in_memory = v.in_memory; in_row = v.in_row }, λ a p. good h.remote a p)

  noting-Ensures :
      {A : Type 0} (P : A → Type 0) (m : Exec (Hass r) A) → Ensures P m → Ensures P (noting r m)
  unfolding noting
  noting-Ensures P m kept h v = elim (Result-cases (m h).0) [
    | inr (e, failed) ↦ rw failed (
      record { in_memory = (kept h v).0.in_memory; in_row = (kept h v).0.in_row },
      λ a p. absurd (cc p),
    )
    | inl (a, good) ↦ rw good ((kept h v).0, λ b p. (kept h v).1 b (good ∙ p))
  ]

  pub save-Ensures :
      (c : Ctx) (attempt : ℕ) (cr : Credentials)
      → is_nil cr.token ≡ false
      → Ensures Anything (on_row r (save c attempt cr))
  unfolding save
  save-Ensures c attempt cr full h v = elim (Bool-cases (c.fails "hass.Save" attempt)) [
    | inl failing ↦ rw failing (record { in_memory = v.in_memory; in_row = v.in_row }, λ a p. tt)
    | inr fine ↦ rw fine (record { in_memory = v.in_memory; in_row = full }, λ a p. tt)
  ]

  abbrev pub Filled : TokenSet → Type 0
  Filled ts = is_nil ts.access_token ≡ false

  abbrev pub Usable : Credentials → Type 0
  Usable cr = is_nil cr.token ≡ false

  as_onboarded_inv : (x : Result TokenSet) (ts : TokenSet) → as_onboarded r x ≡ ok ts → x ≡ ok ts
  as_onboarded_inv (ok a) ts p = p
  as_onboarded_inv (err e) ts p = absurd (cc p)

  login-Ensures :
      (i : Issues r) (u p : Text)
      → Ensures Filled
          (noting r (mapping (as_onboarded r) (on_remote r (r.login_with_password u p))))
  login-Ensures i u p =
      noting-Ensures Filled (mapping (as_onboarded r) (on_remote r (r.login_with_password u p)))
        (λ h v. (
          record { in_memory = v.in_memory; in_row = v.in_row },
          λ ts q. i.login_filled u p h.remote ts (as_onboarded_inv _ ts q),
        ))

  owner_tokens-Ensures :
      (i : Issues r) (cfg : Config) (st : OnboardingStatus) → Ensures Filled (owner_tokens r cfg st)
  unfolding owner_tokens
  owner_tokens-Ensures i cfg st h v = elim (Bool-cases st.owner_done) [
    | inl has_owner ↦ rw has_owner (login-Ensures i cfg.owner_username cfg.owner_password h v)
    | inr fresh ↦ rw fresh (
        bind-Ensures Anything Filled
          (noting r (
            on_remote r
              (r.create_owner cfg.owner_name cfg.owner_username cfg.owner_password cfg.language)))
          (λ code. noting r (on_remote r (r.exchange_code code)))
          (noting-Ensures Anything _ (remote-Ensures Anything _ (λ s a p. tt)))
          (λ code u. noting-Ensures Filled _ (remote-Ensures Filled _ (i.exchange_filled code))) h
          v)
  ]

  finished-Ensures : (token : Text) → Ensures Anything (finished r token)
  finished-Ensures token h v = (record { in_memory = v.in_memory; in_row = v.in_row }, λ a p. tt)

  cached-Ensures : (cr : Credentials) → Usable cr → Ensures Usable (cached r cr)
  cached-Ensures cr full h v =
      (record { in_memory = full; in_row = v.in_row }, λ a p. ground (arith, full))

  onboard-Ensures : (i : Issues r) (cfg : Config) (c : Ctx) → Ensures Usable (onboard r cfg c)
  unfolding onboard
  onboard-Ensures i cfg c =
      bind-Ensures Anything Usable _ _
        (noting-Ensures Anything _ (remote-Ensures Anything _ (λ s a p. tt)))
        (λ st u. bind-Ensures Filled Usable _ _ (owner_tokens-Ensures i cfg st) (λ ts full.
          bind-Ensures Anything Usable _ _ (finished-Ensures ts.access_token) (λ x y.
            bind-Ensures Anything Usable _ _ (save-Ensures c 1 (credentials_of r c ts) full)
              (λ z w. cached-Ensures (credentials_of r c ts) full))))

  resume-Ensures : (cr : Credentials) → Usable cr → Ensures Usable (resume r cr)
  unfolding resume
  resume-Ensures cr full h v = elim (Bool-cases (pending r (r.onboarding_status h.remote).0)) [
    | inl more ↦
        rw more (record { in_memory = full; in_row = v.in_row }, λ a p. ground (arith, full))
    | inr none_left ↦
        rw none_left (record { in_memory = full; in_row = v.in_row }, λ a p. ground (arith, full))
  ]

  after_load-Ensures :
      (i : Issues r) (cfg : Config) (c : Ctx) (loaded : Result Credentials)
      → ((cr : Credentials) → loaded ≡ ok cr → Usable cr)
      → Ensures Usable (after_load r cfg c loaded)
  after_load-Ensures i cfg c (ok cr) full = resume-Ensures cr (full cr refl)
  after_load-Ensures i cfg c (err not_found) full = onboard-Ensures i cfg c
  after_load-Ensures i cfg c (err e) full = λ h v. (v, λ a p. absurd (cc p))

  load_filled :
      (c : Ctx) (row : Option Credentials) (cr : Credentials)
      → HasToken row
      → load c row ≡ ok cr
      → Usable cr
  unfolding load
  load_filled c none cr full p = absurd (ground arith)
  load_filled c (some x) cr full p = ground arith

  usable_filled :
      (creds : Option Credentials) (cr : Credentials) → usable creds ≡ some cr → Usable cr
  usable_filled none cr p = absurd (cc p)
  usable_filled (some x) cr p = ground arith

  pub bootstrap-Ensures :
      (i : Issues r) (cfg : Config) (c : Ctx) → Ensures Usable (bootstrap r cfg c)
  unfolding bootstrap
  bootstrap-Ensures i cfg c h v = elim (Option-cases (usable h.creds)) [
    | inl missing ↦
        rw (missing, bootstrap)
          (after_load-Ensures i cfg c (load c h.row) (λ cr. load_filled c h.row cr v.in_row) h v)
    | inr (cr, found) ↦
        rw (found, bootstrap)
          (v, λ a p. let full = usable_filled h.creds cr found in ground (arith, full))
  ]
