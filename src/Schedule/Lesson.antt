-- ===== src/Schedule/Lesson.antt =====
-- Lesson and Overlaps of lesson.go in backend/internal/schedule.
use smartclass.Prelude.{
  ℕ, ◌≤◌, ◌<◌, String, Bool, true, false, ◌&&◌, Option, ◌≡◌, ◌↔◌, ltb, leb, ◌==◌, nat_eq, arith,
  if◌then◌else◌, not, Bool-cases, inl, inr,
}
use smartclass.Schedule.TimeOfDay.{day_valid, time_valid}

pub record Lesson : Type 0 where
  pub id : ℕ
  pub classroom_id : ℕ
  pub subject : String
  pub teacher_id : Option ℕ
  pub day_of_week : ℕ
  pub starts_at : ℕ
  pub ends_at : ℕ
  pub notes : String
  pub created_at : ℕ
  pub updated_at : ℕ

unfoldable pub overlaps : Lesson → Lesson → Bool
overlaps l other =
    if not (l.day_of_week == other.day_of_week)
    then false
    else ltb l.starts_at other.ends_at && ltb other.starts_at l.ends_at

-- The condition under which Create and Update do not return ErrInvalidTime.
unfoldable pub lesson_valid : Lesson → Bool
unfolding day_valid time_valid
lesson_valid l =
    day_valid l.day_of_week
    && time_valid l.starts_at
    && time_valid l.ends_at
    && not (leb l.ends_at l.starts_at)

-- A lesson takes place at minute `t` of day `d`.
abbrev pub Runs : Lesson → ℕ → ℕ → Type 0
Runs l d t = (l.day_of_week ≡ d) × (l.starts_at ≤ t) × (t < l.ends_at)

-- Two valid lessons overlap exactly when some minute of the week has both.
pub overlaps_iff :
    (a b : Lesson)
    → lesson_valid a ≡ true
    → lesson_valid b ≡ true
    → (overlaps a b ≡ true) ↔ ((d t : ℕ) × Runs a d t × Runs b d t)
unfolding overlaps lesson_valid
overlaps_iff a b va vb = (common, λ (d, t, ra, rb). ground arith)
  where
    common : overlaps a b ≡ true → (d t : ℕ) × Runs a d t × Runs b d t
    common h = elim (Bool-cases (leb a.starts_at b.starts_at)) [
      | inl e ↦ (a.day_of_week, b.starts_at, ground arith, ground arith)
      | inr e ↦ (a.day_of_week, a.starts_at, ground arith, ground arith)
    ]
