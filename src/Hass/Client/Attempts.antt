-- ===== src/Hass/Client/Attempts.antt =====
-- FinishOnboarding of client.go of backend/internal/hass: what it has seen when it succeeds, and how
-- often it asks.
use smartclass.Prelude.{
  ℕ, zero, suc, ◌+◌, ◌*◌, ◌≤◌, Bool, true, false, List, ◌≡◌, inl, inr, arith, refl, ap, ◌∙◌,
  Bool-cases,
}
use smartclass.Prelude.Text.{Text}
use smartclass.Platform.Errors.{ok, Result-cases}
use smartclass.Platform.Exec.{Exec}
use smartclass.Hass.Credentials.{OnboardingStatus}
use smartclass.Hass.Network.{Call, Network, next-lift}
use smartclass.Hass.Client.Onboarding.{
  finished, onboarding_status, post_onboarding_step, post_steps, Attempt, complete, over, attempt,
  after_attempt, unless_done, last_look, finish_from, finish_onboarding,
}

module _ (net : Network) where
  -- The state `s` is one after a look at the status that found all done.
  abbrev pub SeenDone : net.State → Type 0
  SeenDone s =
      (s' : net.State) × (st : OnboardingStatus) × (onboarding_status net s' ≡ (ok st, s))
      × (finished st ≡ true)

  attempt_complete :
      (token : Text) (s : net.State)
      → (attempt net token s).0 ≡ complete
      → SeenDone (attempt net token s).1
  unfolding attempt
  attempt_complete token s h = elim (Result-cases (onboarding_status net s).0) [
    | inr (e, failed) ↦ absurd (ground (arith, failed))
    | inl (st, good) ↦ elim (Bool-cases (finished st)) [
      | inl all_done ↦ (s, st, ground (arith, good, all_done), all_done)
      | inr open_steps ↦ absurd (ground (arith, good, open_steps))
    ]
  ]

  last_look_ok :
      (clean : Bool) (s : net.State)
      → (last_look net clean s).0 ≡ ok tt
      → SeenDone (last_look net clean s).1
  unfolding last_look
  last_look_ok false s h = absurd (ground arith)
  last_look_ok true s h = elim (Result-cases (onboarding_status net s).0) [
    | inr (e, failed) ↦ absurd (ground (arith, failed))
    | inl (st, good) ↦ (s, st, ground (arith, good), ground (arith, good))
  ]

  after_attempt_ok :
      (rest : Bool → Exec net.State (Unit {0}))
      → ((clean : Bool) (s : net.State) → (rest clean s).0 ≡ ok tt → SeenDone (rest clean s).1)
      → (tried : Attempt) (s : net.State) → (tried ≡ complete → SeenDone s)
      → (after_attempt net rest tried s).0 ≡ ok tt
      → SeenDone (after_attempt net rest tried s).1
  unfolding after_attempt
  after_attempt_ok rest later complete s seen h = seen refl
  after_attempt_ok rest later (over clean) s seen h = elim (Bool-cases (net.cancelled s)) [
    | inl gone ↦ absurd (ground (arith, gone))
    | inr going ↦ rw going (later clean s (ground (arith, going)))
  ]

  finish_from_ok :
      (left : ℕ) (token : Text) (clean : Bool) (s : net.State)
      → (finish_from net left token clean s).0 ≡ ok tt
      → SeenDone (finish_from net left token clean s).1
  unfolding finish_from
  finish_from_ok zero token clean s h = last_look_ok clean s h
  finish_from_ok (suc left) token clean s h =
      after_attempt_ok (finish_from net left token) (finish_from_ok left token)
        (attempt net token s).0 (attempt net token s).1 (attempt_complete token s) h

-- A count of the requests that Home Assistant has been sent
pub record Counts (net : Network) : Type 0 where
  pub count : net.State → ℕ
  pub count_send : (call : Call) (s : net.State) → count (net.send call s).1 ≡ count s + 1

module _ (net : Network) (counts : Counts net) where
  open counts use {count, count_send}

  status_count : (s : net.State) → count (onboarding_status net s).1 ≡ count s + 1
  unfolding onboarding_status
  status_count s = ap count (next-lift _ _ _) ∙ count_send _ s

  post_count :
      (token path : Text) (fields : List (Text × Text)) (s : net.State)
      → count (post_onboarding_step net token path fields s).1 ≡ count s + 1
  unfolding post_onboarding_step
  post_count token path fields s = count_send _ s

  unless_count :
      (done : Bool) (token path : Text) (fields : List (Text × Text)) (p : Bool × net.State)
      → count (unless_done net done token path fields p).1 ≤ count p.1 + 1
  unfolding unless_done
  unless_count true token path fields p = omega arith
  unless_count false token path fields p = omega (arith, post_count token path fields p.1)

  steps_count :
      (token : Text) (st : OnboardingStatus) (s : net.State)
      → count (post_steps net token st s).1 ≤ count s + 3
  unfolding post_steps
  steps_count token st s = omega (arith, unless_count)

  attempt_count : (token : Text) (s : net.State) → count (attempt net token s).1 ≤ count s + 4
  unfolding attempt
  attempt_count token s =
      let looked = status_count s in
      elim (Result-cases (onboarding_status net s).0) [
        | inr (e, failed) ↦ rw failed (omega (arith, looked))
        | inl (st, good) ↦ elim (Bool-cases (finished st)) [
          | inl all_done ↦ rw (good, all_done) (omega (arith, looked))
          | inr open_steps ↦
              rw (good, open_steps)
                (omega (arith, looked, steps_count token st (onboarding_status net s).1))
        ]
      ]

  last_count : (clean : Bool) (s : net.State) → count (last_look net clean s).1 ≤ count s + 1
  unfolding last_look
  last_count false s = omega arith
  last_count true s = omega (arith, status_count s)

  after_count :
      (rest : Bool → Exec net.State (Unit {0})) (n : ℕ)
      → ((clean : Bool) (s : net.State) → count (rest clean s).1 ≤ count s + n)
      → (tried : Attempt) (s : net.State) → count (after_attempt net rest tried s).1 ≤ count s + n
  unfolding after_attempt
  after_count rest n bound complete s = omega arith
  after_count rest n bound (over clean) s = elim (Bool-cases (net.cancelled s)) [
    | inl gone ↦ rw gone (omega arith)
    | inr going ↦ rw going (bound clean s)
  ]

  finish_count :
      (left : ℕ) (token : Text) (clean : Bool) (s : net.State)
      → count (finish_from net left token clean s).1 ≤ count s + (4 * left + 1)
  unfolding finish_from
  finish_count zero token clean s = omega (arith, last_count clean s)
  finish_count (suc left) token clean s =
      let bound =
        after_count (finish_from net left token) (4 * left + 1) (finish_count left token)
          (attempt net token s).0 (attempt net token s).1 in
      omega (arith, bound, attempt_count token s)

  -- FinishOnboarding ends after at most 21 requests to Home Assistant, whatever is answered: four for
  -- each of its five attempts, and one more for the last look. It succeeds only when the last status
  -- that it was shown says that all the steps are done.
  pub finish_onboarding_ends :
      (token : Text) (s : net.State)
      → (count (finish_onboarding net token s).1 ≤ count s + 21)
        × ((finish_onboarding net token s).0 ≡ ok tt
            → SeenDone net (finish_onboarding net token s).1)
  unfolding finish_onboarding
  finish_onboarding_ends token s =
      (omega (arith, finish_count 5 token true s), finish_from_ok net 5 token true s)
