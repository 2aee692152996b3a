-- ===== src/Audit/Examples.antt =====
-- Two entries, one of them taken before the shutdown.
use smartclass.Prelude.{ℕ, String, true, false, some, List, [], ◌∷◌, ◌≡◌, refl}
use smartclass.Platform.Context.{Ctx}
use smartclass.Audit.Repository.{Entry, Table}
use smartclass.Audit.Service.{
  Worker, new_worker, send, record_entry, take_entry, flush, stop, exit, collect, finish,
  take_entries, collect_entries, send_all, drain, flush_loop, Turn, Flushed, gave_up, flush_sync,
}
use smartclass.Audit.Queue.{IsComplete, new_worker-IsComplete}
use smartclass.Audit.Steps.{
  Step, recorded, sent, took, stopped, perform_all, perform_all-IsComplete,
}

abbrev at : ℕ → Ctx
at now = record { now = now; fresh = λ n. n; fails = λ op id. false }

abbrev no_rows : Table
no_rows = record { next_id = 1; entries = [] }

abbrev action : String → Entry
action verb = record {
  actor_id = some 1;
  entity_type = "device";
  entity_id = some 3;
  action = verb;
  metadata = some "{}";
  created_at = 9;
}

abbrev steps : List (Ctx × Step)
steps =
    (at 1, recorded (action "create"))
    ∷ (at 2, took)
    ∷ (at 3, recorded (action "update"))
    ∷ (at 4, stopped)
    ∷ (at 5, recorded (action "command"))
    ∷ (at 5, sent (action "delete"))
    ∷ []

abbrev busy : Worker
busy = perform_all steps (new_worker no_rows)

-- While FlushSync waits, a Record that had seen the service running sends; another sends before the
-- context ends the loop.
abbrev late : List (List Entry)
late = (action "scene" ∷ []) ∷ []

abbrev turns : List Turn
turns =
    record { sends = action "role" ∷ action "name" ∷ []; expired = false }
    ∷ record { sends = []; expired = true }
    ∷ []

abbrev shut : Flushed × Worker
shut = flush_sync (at 6) late turns busy

-- A Record after Stop is dropped, but one that had seen the service running is not.
one_left : (shut.0 ≡ gave_up) × (shut.1.buffer ≡ action "name" ∷ [])
unfolding flush_sync record_entry send take_entry flush stop exit collect finish take_entries
    collect_entries send_all drain flush_loop
one_left = (refl, refl)

perform_all-IsComplete_example : IsComplete busy
perform_all-IsComplete_example =
    perform_all-IsComplete steps (new_worker no_rows) (new_worker-IsComplete no_rows)
