-- ===== src/Schedule/Race.antt =====
-- Two `Create` requests whose transactions interleave, at the isolation level READ COMMITTED that
-- the pool uses: `SELECT … FOR UPDATE` sees the committed rows, locks the rows that it returns
-- until its transaction ends, and waits for a row that the other transaction has locked.
-- A row that is not there yet is locked by nobody.
use smartclass.Prelude.{
  ℕ, ◌∷◌, Bool, true, false, some, List, [], ◌≡◌, ◌≢◌, refl, ◌∙◌, nat_eq, ◌==◌, arith, All,
  if◌then◌else◌, Bool-cases, inl, inr,
}
use smartclass.Prelude.Dict.{get, put, get-put}
use smartclass.Schedule.Lesson.{Lesson, overlaps}
use smartclass.Platform.Errors.{Result, ok, err, conflict, is_ok}
use smartclass.Platform.Context.{Ctx}
use smartclass.Schedule.Repository.{
  Table, uuid_nil, peers, clashes, with_overlap_check, dated, insert_row, create_if_no_overlap,
}
use smartclass.Schedule.Timetable.{IsTimetable, checked}

pub data Phase : Type 0 where
  begun : Phase
  holding : List (ℕ × Lesson) → Phase
  refused committed : Phase

pub record World : Type 0 where
  pub table : Table
  pub first : Phase
  pub second : Phase

abbrev pub begin : Table → World
begin t = record { table = t; first = begun; second = begun }

-- The rows that a transaction has locked.
abbrev locked : Phase → List (ℕ × Lesson)
locked (holding ps) = ps
locked _ = []

abbrev holds : List (ℕ × Lesson) → ℕ → Bool
holds [] i = false
holds (p ∷ ps) i = if p.0 == i then true else holds ps i

-- None of the rows is locked by the other transaction.
abbrev Free : List (ℕ × Lesson) → Phase → Type 0
Free ps other = All (λ p. holds (locked other) p.0 ≡ false) ps

-- What the loop over the locked rows decides: go on to the insertion, or return ErrConflict.
abbrev decided : Lesson → List (ℕ × Lesson) → Phase
decided l ps = if clashes uuid_nil l ps then refused else holding ps

-- The end of a transaction: it commits where the INSERT succeeds, and else it is rolled back.
abbrev ended : Result Lesson → Phase
ended (ok l) = committed
ended (err e) = refused

-- One statement of `withOverlapCheck` in the transaction that inserts the row `a`, or in the one that
-- inserts `b`: the SELECT with what its loop decides, or the INSERT with the end of the transaction.
pub data Step (a b : Lesson) (w u : World) : Type 0 where
  select_a :
      w.first ≡ begun
      → Free (peers w.table a) w.second
      → u ≡ record w { first = decided a (peers w.table a) }
      → Step a b w u
  select_b :
      w.second ≡ begun
      → Free (peers w.table b) w.first
      → u ≡ record w { second = decided b (peers w.table b) }
      → Step a b w u
  insert_a :
      (ps : List (ℕ × Lesson))
      → w.first ≡ holding ps
      → u ≡ record w { table = (insert_row a w.table).1; first = ended (insert_row a w.table).0 }
      → Step a b w u
  insert_b :
      (ps : List (ℕ × Lesson))
      → w.second ≡ holding ps
      → u ≡ record w { table = (insert_row b w.table).1; second = ended (insert_row b w.table).0 }
      → Step a b w u

pub data Reach (a b : Lesson) (w : World) : World → Type 0 where
  here : Reach a b w w
  step : {v u : World} → Reach a b w v → Step a b v u → Reach a b w u

same_peers :
    (t : Table) (a b : Lesson)
    → a.classroom_id ≡ b.classroom_id
    → a.day_of_week ≡ b.day_of_week
    → peers t b ≡ peers t a
unfolding peers
same_peers t a b p q = rw (p, q)

same_day : (a b : Lesson) → overlaps a b ≡ true → a.day_of_week ≡ b.day_of_week
unfolding overlaps
same_day a b h = ground arith

abbrev both : Table → Lesson → Lesson → World
both t a b = record { table = put (put t a.id a) b.id b; first = committed; second = committed }

-- The run: both select, and find no lesson on that day; then both insert.
race_run :
    (t : Table) (a b : Lesson)
    → peers t a ≡ []
    → peers t b ≡ []
    → insert_row a t ≡ (ok a, put t a.id a)
    → insert_row b (put t a.id a) ≡ (ok b, put (put t a.id a) b.id b)
    → Reach a b (begin t) (both t a b)
unfolding clashes
race_run t a b none_a none_b in_a in_b =
    let w1 : World = record { table = t; first = holding []; second = begun } in
    let w2 : World = record { table = t; first = holding []; second = holding [] } in
    let w3 : World = record { table = put t a.id a; first = committed; second = holding [] } in
    step {v = w3}
      (step {v = w2}
        (step {v = w1} (step here (select_a refl (rw none_a tt) (rw none_a refl)))
          (select_b refl (rw none_b tt) (rw none_b refl)))
        (insert_a [] refl (rw in_a refl)))
      (insert_b [] refl (rw in_b refl))

-- A creation that succeeds has inserted its row.
inserts :
    (c : Ctx) (l : Lesson) (t : Table)
    → is_ok (create_if_no_overlap c l t).0 ≡ true
    → (create_if_no_overlap c l t ≡ (ok (dated c l), put t l.id (dated c l)))
      × (insert_row (dated c l) t ≡ (ok (dated c l), put t l.id (dated c l)))
      × (c.fails "schedule.CreateIfNoOverlap" l.id ≡ false)
unfolding create_if_no_overlap with_overlap_check
inserts c l t h = (ground (arith, h), ground (arith, h), ground (arith, h))

-- Another row does not stand in the way of the INSERT.
inserts_after :
    (a b : Lesson) (t : Table)
    → a.id ≢ b.id
    → insert_row b t ≡ (ok b, put t b.id b)
    → insert_row b (put t a.id a) ≡ (ok b, put (put t a.id a) b.id b)
inserts_after a b t other h = ground (arith, h, get-put t a.id b.id a)

-- A creation that finds the overlapping lesson is refused.
refused_after :
    (c : Ctx) (a b : Lesson) (t : Table)
    → a.id ≢ uuid_nil
    → a.classroom_id ≡ b.classroom_id
    → overlaps a b ≡ true
    → c.fails "schedule.CreateIfNoOverlap" b.id ≡ false
    → (create_if_no_overlap c b (put t a.id (dated c a))).0 ≡ err conflict
unfolding create_if_no_overlap with_overlap_check overlaps
refused_after c a b t real same clash fine =
    let after = put t a.id (dated c a) in
    let row = dated c b in
    elim (Bool-cases (clashes uuid_nil row (peers after row))) [
      | inl found ↦ rw (fine, found) refl
      | inr missed ↦
          let stored : get after a.id ≡ some (dated c a) = grind (arith, get-put) in
          let apart = checked uuid_nil row after a.id (dated c a) missed stored real same in
          absurd (cc (apart, clash))
    ]

-- Two creations, each of which would succeed alone, of lessons that overlap, on a day of the classroom
-- without lessons: done one after the other, the second is refused; but their transactions can
-- interleave so that both are committed, both rows are stored, and what results is no timetable. The
-- identifiers differ, and the first is not uuid.Nil.
pub race_breaks-IsTimetable :
    (c : Ctx) (t : Table) (a b : Lesson)
    → is_ok (create_if_no_overlap c a t).0 ≡ true
    → is_ok (create_if_no_overlap c b t).0 ≡ true
    → peers t a ≡ []
    → a.classroom_id ≡ b.classroom_id
    → a.id ≢ b.id
    → a.id ≢ uuid_nil
    → overlaps a b ≡ true
    → ((create_if_no_overlap c b (create_if_no_overlap c a t).1).0 ≡ err conflict)
      × (u : World) × Reach (dated c a) (dated c b) (begin t) u
      × (u.first ≡ committed)
      × (u.second ≡ committed)
      × (get u.table a.id ≡ some (dated c a))
      × (get u.table b.id ≡ some (dated c b))
      × ¬ IsTimetable u.table
unfolding overlaps peers
race_breaks-IsTimetable c t a b alone_a alone_b empty_day same other real clash =
    let today = same_day a b clash in
    let (made_a, in_a, fine_a) = inserts c a t alone_a in
    let (made_b, in_b, fine_b) = inserts c b t alone_b in
    let end = both t (dated c a) (dated c b) in
    let found_a : get end.table a.id ≡ some (dated c a) = grind (arith, get-put) in
    let found_b : get end.table b.id ≡ some (dated c b) = grind (arith, get-put) in
    (
      rw made_a (refused_after c a b t real same clash fine_b),
      end,
      race_run t (dated c a) (dated c b) empty_day (same_peers t a b same today ∙ empty_day) in_a
          (inserts_after (dated c a) (dated c b) t other in_b),
      refl,
      refl,
      found_a,
      found_b,
      λ h. cc (h.disjoint a.id b.id (dated c a) (dated c b) found_a found_b other same, clash),
    )
