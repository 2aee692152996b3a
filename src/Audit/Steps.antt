-- ===== src/Audit/Steps.antt =====
-- The goroutines of backend/internal/auditlog in any order.
use smartclass.Prelude.{List, [], ◌∷◌, ◌≡◌, sym, subst, arith, Bool-cases, inl, inr, nat_eq}
use smartclass.Platform.Context.{Ctx}
use smartclass.Audit.Repository.{Entry}
use smartclass.Audit.Service.{
  Worker, send, record_entry, take_entry, tick, stop, exit, collect, finish,
}
use smartclass.Audit.Queue.{
  IsComplete, send-IsComplete, take_entry-IsComplete, tick-IsComplete, exit-IsComplete,
  collect-IsComplete, finish-IsComplete,
}

-- The steps of the goroutines: a Record that has seen `done` open may send at any time after.
pub data Step : Type 0 where
  recorded sent : Entry → Step
  took ticked stopped exited collected finished : Step

abbrev pub perform : Ctx → Step → Worker → Worker
perform c (recorded e) w = record_entry e w
perform c (sent e) w = send e w
perform c took w = take_entry c w
perform c ticked w = tick c w
perform c stopped w = stop w
perform c exited w = exit c w
perform c collected w = collect w
perform c finished w = finish c w

abbrev pub perform_all : List (Ctx × Step) → Worker → Worker
perform_all [] w = w
perform_all (s ∷ ss) w = perform_all ss (perform s.0 s.1 w)

perform-IsComplete : (c : Ctx) (s : Step) (w : Worker) → IsComplete w → IsComplete (perform c s w)
unfolding record_entry stop
perform-IsComplete c (recorded e) w p = elim (Bool-cases w.is_done) [
  | inl over ↦ let same : record_entry e w ≡ w = ground arith in subst IsComplete (sym same) p
  | inr still ↦
      let same : record_entry e w ≡ send e w = ground arith in
      subst IsComplete (sym same) (send-IsComplete e w p)
]
perform-IsComplete c (sent e) w p = send-IsComplete e w p
perform-IsComplete c took w p = take_entry-IsComplete c w p
perform-IsComplete c ticked w p = tick-IsComplete c w p
perform-IsComplete c stopped w p = record {
  whole = p.whole;
  queue = p.queue;
  small = p.small;
  one_at_a_time = p.one_at_a_time;
}
perform-IsComplete c exited w p = exit-IsComplete c w p
perform-IsComplete c collected w p = collect-IsComplete w p
perform-IsComplete c finished w p = finish-IsComplete c w p

-- Through any steps of the goroutines in any order, every entry that went into the queue is, once
-- and in its order, in a call of Insert, in what FlushSync has collected for one, in the batch of the
-- goroutine, which holds at most 63, or in the queue, which holds at most 1024. FlushSync has collected
-- nothing while the goroutine runs, and the goroutine leaves no batch when it returns.
pub perform_all-IsComplete :
    (steps : List (Ctx × Step)) (w : Worker) → IsComplete w → IsComplete (perform_all steps w)
perform_all-IsComplete [] w p = p
perform_all-IsComplete (s ∷ ss) w p =
    perform_all-IsComplete ss (perform s.0 s.1 w) (perform-IsComplete s.0 s.1 w p)
