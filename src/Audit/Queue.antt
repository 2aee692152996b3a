-- ===== src/Audit/Queue.antt =====
-- What becomes of the entries that Record puts into the queue of backend/internal/auditlog.
use smartclass.Prelude.{
  append-nil, append_assoc, ◌≤◌, ◌<◌, Bool, true, false, ◌&&◌, List, [], ◌∷◌, ◌++◌, ◌≡◌, ◌⊎◌, refl,
  sym, ap, subst, ◌∙◌, if◌then◌else◌, leb, ltb, length, length-append, arith, Bool-cases, inl, inr,
  nat_eq,
}
use smartclass.Platform.Context.{Ctx}
use smartclass.Audit.Repository.{Entry, Table}
use smartclass.Audit.Service.{
  Worker, capacity, batch, new_worker, send, handed, flush, take_entry, tick, is_drained, exit,
  collect, finish,
}

-- All entries that were handed to Insert, in order
abbrev pub entries_of : List (Bool × List Entry) → List Entry
entries_of [] = []
entries_of (call ∷ calls) = call.1 ++ entries_of calls

-- Every entry that went into the queue is in exactly one place, in its order, and the queue and the
-- batch are bounded.
pub record IsComplete (w : Worker) : Type 0 where
  pub whole : entries_of w.calls ++ (w.collected ++ (w.buf ++ w.buffer)) ≡ w.accepted
  pub queue : length w.buffer ≤ capacity
  pub small : length w.buf < batch
  pub one_at_a_time : if w.is_running then w.collected ≡ [] else w.buf ≡ []

pub List-cases :
    {A : Type 0} (xs : List A) → (xs ≡ []) ⊎ ((x : A) × (rest : List A) × (xs ≡ x ∷ rest))
List-cases [] = inl refl
List-cases (x ∷ xs) = inr (x, xs, refl)

entries_of-append :
    (calls : List (Bool × List Entry)) (b : Bool) (es : List Entry)
    → entries_of (calls ++ (b, es) ∷ []) ≡ entries_of calls ++ es
entries_of-append [] b es = append-nil es
entries_of-append (call ∷ calls) b es =
    ap (λ xs. call.1 ++ xs) (entries_of-append calls b es)
    ∙ sym (append_assoc call.1 (entries_of calls) es)

extend :
    {A : Type 0} (a b c d e : List A) → a ++ (b ++ (c ++ (d ++ e))) ≡ (a ++ (b ++ (c ++ d))) ++ e
extend a b c d e = simp append_assoc

hand_over :
    (calls : List (Bool × List Entry)) (b : Bool) (es rest : List Entry)
    → entries_of (calls ++ (b, es) ∷ []) ++ rest ≡ entries_of calls ++ (es ++ rest)
hand_over calls b es rest =
    rw (entries_of-append calls b es) (append_assoc (entries_of calls) es rest)

pub new_worker-IsComplete : (t : Table) → IsComplete (new_worker t)
new_worker-IsComplete t = record {
  whole = refl;
  queue = omega arith;
  small = omega arith;
  one_at_a_time = refl;
}

pub send-IsComplete : (e : Entry) (w : Worker) → IsComplete w → IsComplete (send e w)
unfolding send
send-IsComplete e w p = elim (Bool-cases (ltb (length w.buffer) capacity)) [
  | inr full ↦ rw full p
  | inl room ↦ rw room (record {
    whole =
        extend (entries_of w.calls) w.collected w.buf w.buffer (e ∷ [])
        ∙ ap (λ xs. xs ++ e ∷ []) p.whole;
    queue = ground (arith, length-append w.buffer (e ∷ []), p.queue);
    small = p.small;
    one_at_a_time = p.one_at_a_time;
  })
]

-- What flush does, whether there is a batch or not.
pub flush_lem :
    (c : Ctx) (w : Worker)
    → ((w.buf ≡ []) × (flush c w ≡ w)) ⊎ (flush c w ≡ record (handed c w.buf w) { buf = [] })
unfolding flush
flush_lem c w = elim (List-cases w.buf) [
  | inl none_left ↦ inl (none_left, rw none_left refl)
  | inr (e, es, some_left) ↦ inr (rw some_left refl)
]

-- A batch of any size that is handed over leaves an empty one.
flush-IsComplete :
    (c : Ctx) (w : Worker)
    → w.is_running ≡ true
    → entries_of w.calls ++ (w.buf ++ w.buffer) ≡ w.accepted
    → length w.buffer ≤ capacity
    → w.collected ≡ []
    → IsComplete (flush c w) × ((flush c w).buf ≡ []) × ((flush c w).collected ≡ [])
flush-IsComplete c w running whole room idle = elim (flush_lem c w) [
  | inl (empty, same) ↦ rw same (
    record {
      whole = rw idle whole;
      queue = room;
      small = rw empty (omega arith);
      one_at_a_time = rw running idle;
    },
    empty,
    idle,
  )
  | inr called ↦ rw called (
    record {
      whole = rw idle (hand_over w.calls _ w.buf w.buffer ∙ whole);
      queue = room;
      small = omega arith;
      one_at_a_time = rw running idle;
    },
    refl,
    idle,
  )
]

idle_while_running : (w : Worker) → IsComplete w → w.is_running ≡ true → w.collected ≡ []
idle_while_running w p running =
    subst (λ r. if r then w.collected ≡ [] else w.buf ≡ []) running p.one_at_a_time

pub empty_after : (w : Worker) → IsComplete w → w.is_running ≡ false → w.buf ≡ []
empty_after w p over = subst (λ r. if r then w.collected ≡ [] else w.buf ≡ []) over p.one_at_a_time

running_whole :
    (w : Worker)
    → IsComplete w
    → w.is_running ≡ true
    → entries_of w.calls ++ (w.buf ++ w.buffer) ≡ w.accepted
running_whole w p running =
    subst (λ cs. entries_of w.calls ++ (cs ++ (w.buf ++ w.buffer)) ≡ w.accepted)
      (idle_while_running w p running) p.whole

stopped_whole :
    (w : Worker)
    → IsComplete w
    → w.is_running ≡ false
    → entries_of w.calls ++ (w.collected ++ w.buffer) ≡ w.accepted
stopped_whole w p over =
    subst (λ b. entries_of w.calls ++ (w.collected ++ (b ++ w.buffer)) ≡ w.accepted)
      (empty_after w p over) p.whole

pub take_entry-IsComplete : (c : Ctx) (w : Worker) → IsComplete w → IsComplete (take_entry c w)
unfolding take_entry
take_entry-IsComplete c w p = elim (Bool-cases w.is_running) [
  | inr over ↦ simp over p
  | inl running ↦ elim (List-cases w.buffer) [
    | inl empty ↦ simp (running, empty) p
    | inr (e, es, next) ↦
        let idle = idle_while_running w p running in
        let room : length es ≤ capacity = omega (arith, p.queue, ap length next) in
        let t = record w { buffer = es; buf = w.buf ++ e ∷ [] } in
        let whole : entries_of t.calls ++ (t.buf ++ t.buffer) ≡ t.accepted =
          ap (λ xs. entries_of w.calls ++ xs) (append_assoc w.buf (e ∷ []) es)
          ∙ subst (λ b. entries_of w.calls ++ (w.buf ++ b) ≡ w.accepted) next
              (running_whole w p running) in
        elim (Bool-cases (leb batch (length t.buf))) [
          | inl full ↦ rw (running, next, full) (flush-IsComplete c t running whole room idle).0
          | inr small ↦
              rw (running, next, small)
                (record {
                  whole = rw idle whole;
                  queue = room;
                  small = ground (arith, small);
                  one_at_a_time = rw running idle;
                })
        ]
  ]
]

pub tick-IsComplete : (c : Ctx) (w : Worker) → IsComplete w → IsComplete (tick c w)
unfolding tick
tick-IsComplete c w p = elim (Bool-cases w.is_running) [
  | inr over ↦ simp over p
  | inl running ↦
      let idle = idle_while_running w p running in
      simp running (flush-IsComplete c w running (running_whole w p running) p.queue idle).0
]

pub exit-IsComplete : (c : Ctx) (w : Worker) → IsComplete w → IsComplete (exit c w)
unfolding exit
exit-IsComplete c w p = elim (Bool-cases (w.is_running && w.is_done && is_drained w.buffer)) [
  | inr other ↦ simp other p
  | inl ends ↦
      let running : w.is_running ≡ true = ground arith in
      let idle = idle_while_running w p running in
      let (q, empty, still) =
        flush-IsComplete c w running (running_whole w p running) p.queue idle in
      rw ends (record { whole = q.whole; queue = q.queue; small = q.small; one_at_a_time = empty })
]

pub collect-IsComplete : (w : Worker) → IsComplete w → IsComplete (collect w)
unfolding collect
collect-IsComplete w p = elim (Bool-cases w.is_running) [
  | inl running ↦ simp running p
  | inr over ↦ elim (List-cases w.buffer) [
    | inl empty ↦ simp (over, empty) p
    | inr (e, es, next) ↦
        let done = empty_after w p over in
        rw (over, next)
          (record {
            whole =
                ap (λ xs. entries_of w.calls ++ xs) (rw done (append_assoc w.collected (e ∷ []) es))
                ∙ subst (λ b. entries_of w.calls ++ (w.collected ++ b) ≡ w.accepted) next
                    (stopped_whole w p over);
            queue = omega (arith, p.queue, ap length next);
            small = p.small;
            one_at_a_time = rw over done;
          })
  ]
]

pub finish-IsComplete : (c : Ctx) (w : Worker) → IsComplete w → IsComplete (finish c w)
unfolding finish
finish-IsComplete c w p = elim (List-cases w.collected) [
  | inl empty ↦ let same : finish c w ≡ w = rw empty refl in subst IsComplete (sym same) p
  | inr (e, es, some_left) ↦ elim (Bool-cases w.is_running) [
    | inl running ↦ absurd (cc (some_left, idle_while_running w p running))
    | inr over ↦ rw some_left (record {
      whole =
          hand_over w.calls _ (e ∷ es) (w.buf ++ w.buffer)
          ∙ subst (λ cs. entries_of w.calls ++ (cs ++ (w.buf ++ w.buffer)) ≡ w.accepted) some_left
              p.whole;
      queue = p.queue;
      small = p.small;
      one_at_a_time = rw over (empty_after w p over);
    })
  ]
]
