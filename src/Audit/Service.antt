-- ===== src/Audit/Service.antt =====
-- service.go of backend/internal/auditlog. The queue is Go's channel of 1024 entries; the goroutine
-- `run` takes them into a batch of 64. The steps of the goroutines are functions on what they share,
-- each one turn of a `select`; a step that is not enabled changes nothing.
use smartclass.Prelude.{
  ℕ, zero, suc, Bool, true, false, not, ◌&&◌, List, [], ◌∷◌, ◌++◌, if◌then◌else◌, leb, ltb, length,
}
use smartclass.Platform.Errors.{Result, ok, is_ok}
use smartclass.Platform.Context.{Ctx}
use smartclass.Audit.Repository.{Entry, Table, insert}

abbrev pub capacity : ℕ
capacity = 1024

abbrev pub batch : ℕ
batch = 64

-- The log of a process: the channel, the batch of `run`, what FlushSync has collected, whether
-- `done` is closed and whether `run` has not returned yet, with the table. `accepted` and `calls`
-- tell what went into the channel and what was handed to Insert, and whether that succeeded.
pub record Worker : Type 0 where
  pub buffer : List Entry
  pub buf : List Entry
  pub collected : List Entry
  pub is_done : Bool
  pub is_running : Bool
  pub table : Table
  pub accepted : List Entry
  pub calls : List (Bool × List Entry)

-- NewService
abbrev pub new_worker : Table → Worker
new_worker t = record {
  buffer = [];
  buf = [];
  collected = [];
  is_done = false;
  is_running = true;
  table = t;
  accepted = [];
  calls = [];
}

-- The second `select` of Record: a full channel drops the entry.
unfoldable pub send : Entry → Worker → Worker
send e w =
    if ltb (length w.buffer) capacity
    then record w { buffer = w.buffer ++ e ∷ []; accepted = w.accepted ++ e ∷ [] }
    else w

-- Record, where nothing comes between its two selects
unfoldable pub record_entry : Entry → Worker → Worker
unfolding send
record_entry e w = if w.is_done then w else send e w

-- repo.Insert; that it fails is only logged.
abbrev pub handed : Ctx → List Entry → Worker → Worker
handed c es w = record w {
  table = (insert c es w.table).1;
  calls = w.calls ++ (is_ok (insert c es w.table).0, es) ∷ [];
}

-- flush of run
unfoldable pub flush : Ctx → Worker → Worker
flush c w = elim w.buf [ [] ↦ w | (e ∷ es) ↦ record (handed c (e ∷ es) w) { buf = [] } ]

-- `case e := <-s.buffer` of run, the same while it drains
unfoldable pub take_entry : Ctx → Worker → Worker
unfolding flush
take_entry c w = if not w.is_running then w else elim w.buffer [
  | [] ↦ w
  | (e ∷ es) ↦
      let t = record w { buffer = es; buf = w.buf ++ e ∷ [] } in
      if leb batch (length t.buf) then flush c t else t
]

-- `case <-t.C` of run
unfoldable pub tick : Ctx → Worker → Worker
unfolding flush
tick c w = if w.is_running then flush c w else w

-- Stop
unfoldable pub stop : Worker → Worker
stop w = record w { is_done = true }

abbrev pub is_drained : List Entry → Bool
is_drained [] = true
is_drained (e ∷ es) = false

-- The `default` of the drain of run, after which it returns
unfoldable pub exit : Ctx → Worker → Worker
unfolding flush
exit c w =
    if w.is_running && w.is_done && is_drained w.buffer
    then record (flush c w) { is_running = false }
    else w

-- `case e := <-s.buffer` of FlushSync, which has waited for run
unfoldable pub collect : Worker → Worker
collect w = if w.is_running then w else elim w.buffer [
  | [] ↦ w
  | (e ∷ es) ↦ record w { buffer = es; collected = w.collected ++ e ∷ [] }
]

-- The end of FlushSync: the Insert of what it has collected, also where the context has expired
unfoldable pub finish : Ctx → Worker → Worker
finish c w = elim w.collected [
  | [] ↦ w
  | (e ∷ es) ↦ record (handed c (e ∷ es) w) { collected = [] }
]

unfoldable pub send_all : List Entry → Worker → Worker
unfolding send
send_all [] w = w
send_all (e ∷ es) w = send_all es (send e w)

unfoldable pub take_entries : Ctx → ℕ → Worker → Worker
unfolding take_entry
take_entries c zero w = w
take_entries c (suc n) w = take_entries c n (take_entry c w)

unfoldable pub collect_entries : ℕ → Worker → Worker
unfolding collect
collect_entries zero w = w
collect_entries (suc n) w = collect_entries n (collect w)

-- The drain of run, with what Records that are under way send before each of its turns, up to the
-- last of these; then it has as many turns left as there are entries in the channel.
unfoldable pub drain : Ctx → List (List Entry) → Worker → Worker
unfolding take_entries exit send_all
drain c [] w = exit c (take_entries c (length w.buffer) w)
drain c (es ∷ ess) w =
    let w' = send_all es w in
    let rest = drain c ess (take_entry c w') in if is_drained w'.buffer then exit c w' else rest

-- Before a turn of the loop of FlushSync: what Records that are under way send, and whether its
-- `select` takes the end of the context
pub record Turn : Type 0 where
  pub sends : List Entry
  pub expired : Bool

-- What FlushSync returns: the error of the context, or what Insert returns
pub data Flushed : Type 0 where
  gave_up : Flushed
  inserted : Result (Unit {0}) → Flushed

abbrev insertion : Ctx → Worker → Flushed
insertion c w = elim w.collected [
  | [] ↦ inserted (ok tt)
  | (e ∷ es) ↦ inserted (insert c (e ∷ es) w.table).0
]

-- The loop of FlushSync, up to the last of the turns before which something happens; then it has as
-- many turns left as there are entries in the channel.
unfoldable pub flush_loop : Ctx → List Turn → Worker → Flushed × Worker
unfolding collect_entries finish send_all
flush_loop c [] w = let w' = collect_entries (length w.buffer) w in (insertion c w', finish c w')
flush_loop c (t ∷ ts) w =
    let w' = send_all t.sends w in
    let rest = flush_loop c ts (collect w') in
    if t.expired
    then (gave_up, finish c w')
    else if is_drained w'.buffer
    then (insertion c w', finish c w')
    else rest

-- FlushSync, with the drain of run that it waits for
unfoldable pub flush_sync : Ctx → List (List Entry) → List Turn → Worker → Flushed × Worker
unfolding stop drain flush_loop
flush_sync c draining turns w = flush_loop c turns (drain c draining (stop w))
