-- ===== src/Schedule/Timetable.antt =====
-- What holds of the timetable between two requests that do not overlap in time.
use smartclass.Prelude.{
  ℕ, true, false, not, ◌||◌, some, none, inl, inr, List, [], ◌∷◌, ◌≡◌, ◌≢◌, ◌∙◌, ◌&&◌, ◌==◌, nat_eq,
  arith, Has, Has-keep, keep, ap, Bool-cases, refl, sym,
}
use smartclass.Prelude.Dict.{get, put, rows, get-put, get-remove, Has-rows}
use smartclass.Platform.Errors.{ok, Result-cases}
use smartclass.Platform.Context.{Ctx}
use smartclass.User.{Principal}
use smartclass.Classroom.Repository.{Db}
use smartclass.Classroom.Service.{authorize}
use smartclass.Schedule.Lesson.{Lesson, overlaps, lesson_valid}
use smartclass.Schedule.Repository
use mathlib.Core.Path.{subst}
use smartclass.Schedule.Repository.{
  Table, uuid_nil, peers, clashes, with_overlap_check, create_if_no_overlap, update_if_no_overlap,
  is_some, row_checked,
}
use smartclass.Schedule.Service.{new_lesson, find, edited}
use smartclass.Schedule.Requests.{Request, create, update, delete, perform}

-- Lessons are stored under their ids, are valid, and no two lessons of one classroom overlap.
pub record IsTimetable (table : Table) : Type 0 where
  pub keyed : (i : ℕ) (a : Lesson) → get table i ≡ some a → a.id ≡ i
  pub named : get table uuid_nil ≡ none
  pub valid : (i : ℕ) (a : Lesson) → get table i ≡ some a → lesson_valid a ≡ true
  pub disjoint :
      (i j : ℕ) (a b : Lesson)
      → get table i ≡ some a
      → get table j ≡ some b
      → i ≢ j
      → a.classroom_id ≡ b.classroom_id
      → overlaps a b ≡ false

overlaps_comm : (a b : Lesson) → overlaps a b ≡ overlaps b a
unfolding overlaps
overlaps_comm a b = ground arith

clashes_sound :
    (exclude_id : ℕ) (l : Lesson) (ps : List (ℕ × Lesson)) (j : ℕ) (b : Lesson)
    → clashes exclude_id l ps ≡ false
    → Has (j, b) ps
    → j ≢ exclude_id
    → overlaps b l ≡ false
unfolding clashes
clashes_sound exclude_id l [] j b h m other = elim m [ ]
clashes_sound exclude_id l ((i, a) ∷ ps) j b h (inl e) other =
    ground (arith, ap (λ (x : ℕ × Lesson). x.0) e, ap (λ (x : ℕ × Lesson). x.1) e)
clashes_sound exclude_id l ((i, a) ∷ ps) j b h (inr m) other =
    clashes_sound exclude_id l ps j b (ground arith) m other

different_days : (a b : Lesson) → a.day_of_week ≢ b.day_of_week → overlaps a b ≡ false
unfolding overlaps
different_days a b h = ground arith

-- The check covers every other lesson of the classroom, not only those of the day it selects.
pub checked :
    (exclude_id : ℕ) (l : Lesson) (table : Table) (j : ℕ) (b : Lesson)
    → clashes exclude_id l (peers table l) ≡ false
    → get table j ≡ some b
    → j ≢ exclude_id
    → b.classroom_id ≡ l.classroom_id
    → overlaps b l ≡ false
unfolding peers
checked exclude_id l table j b h found other same =
    elim (Bool-cases (b.day_of_week == l.day_of_week)) [
      | inl today ↦
          let near = λ (p : ℕ × Lesson).
            p.1.classroom_id == l.classroom_id && p.1.day_of_week == l.day_of_week in
          clashes_sound exclude_id l (keep near (rows table)) j b h
            ((Has-keep near (j, b) (rows table)).1 ((Has-rows table j b).1 found, ground arith))
            other
      | inr apart ↦ different_days b l (ground arith)
    ]

-- Writing a lesson that was checked keeps the timetable.
put-IsTimetable :
    (table : Table) (i : ℕ) (l : Lesson)
    → IsTimetable table
    → l.id ≡ i
    → i ≢ uuid_nil
    → lesson_valid l ≡ true
    → ((j : ℕ) (b : Lesson)
        → get table j ≡ some b
        → j ≢ i
        → b.classroom_id ≡ l.classroom_id
        → overlaps b l ≡ false)
    → IsTimetable (put table i l)
put-IsTimetable table i l h same real good clear = record {
  keyed = λ k a. grind (arith, get-put, h.keyed);
  named = grind (arith, get-put, h.named);
  valid = λ k a. grind (arith, get-put, h.valid);
  disjoint = λ k j a b p q other same. grind (arith, get-put, h.disjoint, clear, overlaps_comm);
}

create_if_no_overlap-IsTimetable :
    (c : Ctx) (l : Lesson) (table : Table)
    → IsTimetable table
    → l.id ≢ uuid_nil
    → lesson_valid l ≡ true
    → IsTimetable (create_if_no_overlap c l table).1
unfolding create_if_no_overlap
create_if_no_overlap-IsTimetable c l table h real good =
    let row : Lesson = record l { created_at = c.now; updated_at = c.now } in
    let clear =
      λ (free : clashes uuid_nil row (peers table row) ≡ false) (j : ℕ) (b : Lesson)
          (found : get table j ≡ some b) (other : j ≢ l.id)
          (same : b.classroom_id ≡ l.classroom_id).
        checked uuid_nil row table j b free found (λ e. cc (h.named)) same in
    elim (Bool-cases (c.fails "schedule.CreateIfNoOverlap" l.id)) [
      | inl failed ↦ rw failed h
      | inr fine ↦ elim (Bool-cases (clashes uuid_nil row (peers table row))) [
        | inl taken ↦ rw (fine, taken) h
        | inr free ↦
            rw (fine, free)
              (elim (Bool-cases (is_some (get table l.id) || not (row_checked row))) [
                | inl broken ↦ rw broken h
                | inr sound ↦ rw sound (
                    put-IsTimetable table l.id row h refl real (unfold lesson_valid in good)
                      (clear free))
              ])
      ]
    ]

update_if_no_overlap-IsTimetable :
    (c : Ctx) (l old : Lesson) (table : Table)
    → IsTimetable table
    → get table l.id ≡ some old
    → old.classroom_id ≡ l.classroom_id
    → lesson_valid l ≡ true
    → IsTimetable (update_if_no_overlap c l table).1
unfolding update_if_no_overlap
update_if_no_overlap-IsTimetable c l old table h found moved good =
    let row : Lesson = record l { updated_at = c.now } in
    let written : Lesson = record row {
      id = old.id;
      classroom_id = old.classroom_id;
      created_at = old.created_at;
    } in
    elim (Bool-cases (c.fails "schedule.UpdateIfNoOverlap" l.id)) [
      | inl failed ↦ rw failed h
      | inr fine ↦ elim (Bool-cases (clashes l.id row (peers table row))) [
        | inl taken ↦ rw (fine, taken) h
        | inr free ↦
            rw (fine, free)
              (rw found (elim (Bool-cases (row_checked row)) [
                | inr broken ↦ rw broken h
                | inl sound ↦ rw sound (
                    put-IsTimetable table l.id written h (h.keyed l.id old found)
                      (λ e. cc (h.named)) (unfold lesson_valid in good)
                      (λ j b near other same.
                        unfold overlaps in
                        checked l.id row table j b free near other (same ∙ moved)))
              ]))
      ]
    ]

delete-IsTimetable :
    (c : Ctx) (id : ℕ) (table : Table)
    → IsTimetable table
    → IsTimetable (Repository.delete c id table).1
unfolding Repository.delete
delete-IsTimetable c id table h = record {
  keyed = λ k a. grind (arith, get-remove, h.keyed);
  named = grind (arith, get-remove, h.named);
  valid = λ k a. grind (arith, get-remove, h.valid);
  disjoint = λ k j a b p q other same. grind (arith, get-remove, h.disjoint);
}

pub find_stored :
    (c : Ctx) (table : Table) (id : ℕ) (l : Lesson) → find c table id ≡ ok l → get table id ≡ some l
unfolding find
find_stored c table id l h = ground arith

-- Creating, updating and deleting lessons, by anyone and however the request ends, keeps the
-- lessons valid and the lessons of each classroom apart; `uuid.New` does not return the nil uuid.
pub perform-IsTimetable :
    (c : Ctx) (school : Db) (p : Principal) (r : Request) (table : Table)
    → c.fresh 0 ≢ uuid_nil
    → IsTimetable table
    → IsTimetable (perform c school p r table).1
unfolding perform
perform-IsTimetable c school p (create input) table real h =
    elim (Result-cases (authorize c school p input.classroom_id true)) [
      | inr (e, refused) ↦ rw refused h
      | inl (u, allowed) ↦ rw allowed (elim (Bool-cases (lesson_valid (new_lesson c input))) [
        | inr bad ↦ rw bad h
        | inl good ↦
            rw good (create_if_no_overlap-IsTimetable c (new_lesson c input) table h real good)
      ])
    ]
perform-IsTimetable c school p (update id input) table real h =
    elim (Result-cases (find c table id)) [
      | inr (e, missing) ↦ rw missing h
      | inl (l, found) ↦ rw found (elim (Result-cases (authorize c school p l.classroom_id true)) [
        | inr (e, refused) ↦ rw refused h
        | inl (u, allowed) ↦ rw allowed (elim (Bool-cases (lesson_valid (edited input l))) [
          | inr bad ↦ rw bad h
          | inl good ↦ rw good (
              update_if_no_overlap-IsTimetable c (edited input l) l table h
                (subst (λ k. get table k ≡ some l)
                  (sym (h.keyed id l (find_stored c table id l found)))
                  (find_stored c table id l found))
                refl good)
        ])
      ])
    ]
perform-IsTimetable c school p (delete id) table real h = elim (Result-cases (find c table id)) [
  | inr (e, missing) ↦ rw missing h
  | inl (l, found) ↦ rw found (elim (Result-cases (authorize c school p l.classroom_id true)) [
    | inr (e, refused) ↦ rw refused h
    | inl (u, allowed) ↦ rw allowed (delete-IsTimetable c id table h)
  ])
]
