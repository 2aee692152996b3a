-- ===== src/Hass/Scrub.antt =====
-- What StartFlow of service.go of backend/internal/hass forgets, aborts and remembers.
use smartclass.Prelude.{
  Bool, true, false, none, some, List, [], ◌∷◌, ◌≡◌, inl, inr, refl, ap, ◌∙◌, ◌==◌, text_eq,
  if◌then◌else◌, arith,
}
use smartclass.Prelude.Dict.{get, get-put, get-remove}
use smartclass.Prelude.Text.{Text, is_nil}
use smartclass.Platform.Errors.{Result, ok, err, Result-cases}
use smartclass.Hass.Network.{FlowStep, Network}
use smartclass.Hass.Client.Flows.{start_flow}
use smartclass.Hass.Client.Progress.{FlowProgress, list_in_progress_flows}
use smartclass.Hass.Wizard.{
  Wizard, Visit, on_net, authenticated, remember_flow, pop_last_flow, abort_if, abort_quietly,
  abort_matching, abort_listed, abort_last, scrub_flows, retried, started, remembered, start,
}

module _ (net : Network) where
  abort_if_keeps :
      (test : Bool) (token id : Text) (w : Wizard net)
      → (abort_if net test token id w).last_flow ≡ w.last_flow
  unfolding abort_if abort_quietly
  abort_if_keeps false token id w = refl
  abort_if_keeps true token id w = refl

  matching_keeps :
      (token handler : Text) (fs : List FlowProgress) (w : Wizard net)
      → (abort_matching net token handler fs w).last_flow ≡ w.last_flow
  unfolding abort_matching
  matching_keeps token handler [] w = refl
  matching_keeps token handler (f ∷ fs) w =
      matching_keeps token handler fs (abort_if net (f.handler == handler) token f.flow_id w)
      ∙ abort_if_keeps (f.handler == handler) token f.flow_id w

  listed_keeps :
      (token handler : Text) (r : Result (List FlowProgress)) (w : Wizard net)
      → (abort_listed net token handler r w).last_flow ≡ w.last_flow
  unfolding abort_listed
  listed_keeps token handler (err e) w = refl
  listed_keeps token handler (ok fs) w = matching_keeps token handler fs w

  -- A scrub forgets the flow of its handler, and no other.
  scrub_forgets :
      (token handler key : Text) (w : Wizard net)
      → get (scrub_flows net token handler w).last_flow key
        ≡ (if handler == key then none else get w.last_flow key)
  unfolding scrub_flows pop_last_flow abort_last
  scrub_forgets token handler key w =
      let w' = abort_last net token (pop_last_flow net handler w) in
      let listed = on_net net (list_in_progress_flows net token) w' in
      ap (λ d. get d key)
        (listed_keeps token handler listed.0 listed.1
          ∙ abort_if_keeps _ token (pop_last_flow net handler w).0 (pop_last_flow net handler w).1)
      ∙ get-remove w.last_flow handler key

  abbrev Forgets : Text → Text → Wizard net → Wizard net → Type 0
  Forgets handler key w w' =
      get w'.last_flow key ≡ (if handler == key then none else get w.last_flow key)

  retried-Forgets :
      (again : Bool) (token handler key : Text) (w : Wizard net)
      (first : Result FlowStep × Wizard net)
      → Forgets handler key w first.1
      → Forgets handler key w (retried net again token handler first).1
  unfolding retried
  retried-Forgets false token handler key w first p = p
  retried-Forgets true token handler key w first p =
      ground (arith, scrub_forgets token handler key first.1, p)

  started-Forgets :
      (token handler key : Text) (w : Wizard net)
      → Forgets handler key w (started net token handler w).1
  unfolding started
  started-Forgets token handler key w =
      retried-Forgets _ token handler key w
        (on_net net (start_flow net token handler) (scrub_flows net token handler w))
        (scrub_forgets token handler key w)

  remembered_key :
      (handler key : Text) (step : FlowStep) (w w' : Wizard net)
      → Forgets handler key w w'
      → get (remembered net handler (ok step) w').last_flow key ≡ (
          if handler == key
          then (if is_nil step.flow_id then none else some step.flow_id)
          else get w.last_flow key)
  unfolding remembered remember_flow
  remembered_key handler key step w w' p =
      ground (arith, p, get-put w'.last_flow handler key step.flow_id)

  -- After a StartFlow that succeeds its handler is remembered with the id of the new flow, or with none
  -- where the flow has no id; what is remembered of other handlers is unchanged.
  pub start_remembers :
      (v : Visit net) (handler key : Text) (w : Wizard net) (step : FlowStep)
      → (start net v handler w).0 ≡ ok step
      → get (start net v handler w).1.last_flow key ≡ (
          if handler == key
          then (if is_nil step.flow_id then none else some step.flow_id)
          else get w.last_flow key)
  unfolding start
  start_remembers v handler key w step h = elim (Result-cases (authenticated net v w).0) [
    | inr (e, refused) ↦ absurd (ground (arith, refused))
    | inl (cr, good) ↦
        let w' = (authenticated net v w).1 in
        let new : (started net cr.token handler w').0 ≡ ok step = ground (arith, good) in
        rw (good, new)
          (remembered_key handler key step w (started net cr.token handler w').1
            (started-Forgets cr.token handler key w'))
  ]
