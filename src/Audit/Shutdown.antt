-- ===== src/Audit/Shutdown.antt =====
-- The shutdown of backend/internal/auditlog: FlushSync leaves nothing behind.
use smartclass.Prelude.{[], ◌++◌, ◌≡◌, ◌⊎◌}
use smartclass.Audit.Service.{Worker, Flushed, gave_up}
use smartclass.Audit.Queue.{entries_of}

-- What FlushSync leaves: everything that has been sent is in a call of Insert or in the queue, and
-- if the context has not ended the loop, the queue is empty.
abbrev Left : Flushed × Worker → Type 0
Left (answer, w) =
    (entries_of w.calls ++ w.buffer ≡ w.accepted) × ((answer ≡ gave_up) ⊎ (w.buffer ≡ []))
