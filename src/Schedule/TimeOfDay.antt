-- ===== src/Schedule/TimeOfDay.antt =====
-- TimeOfDay and DayOfWeek of lesson.go in backend/internal/schedule. Both are Go ints; neither the
-- parser nor the handler's validation lets a negative one in, so they are numbers here.
-- `time.Parse` of the Go library is written out for the layouts "15:04" and "15:04:05".
use smartclass.Prelude.{
  ℕ, ◌+◌, ◌-◌, ◌*◌, ◌/◌, ◌%◌, Bool, true, ◌&&◌, ◌||◌, Option, none, some, [], ◌∷◌, ◌++◌, ◌≡◌, ltb,
  leb, nat_beq, arith, if◌then◌else◌,
}
use smartclass.Prelude.Text.{Text}

-- DayOfWeek.Valid: Monday is 1 and Sunday is 7.
unfoldable pub day_valid : ℕ → Bool
day_valid d = leb 1 d && leb d 7

-- FromTime: `time.Sunday` is weekday 0.
unfoldable pub from_time : ℕ → ℕ
from_time weekday = if nat_beq weekday 0 then 7 else weekday

-- TimeOfDay.Valid
unfoldable pub time_valid : ℕ → Bool
time_valid t = ltb t (24 * 60)

abbrev is_digit : ℕ → Bool
is_digit c = leb 48 c && leb c 57

-- The hour of a layout has one digit or two; `getnum(value, false)`.
get_hour : Text → Option (ℕ × Text)
get_hour [] = none
get_hour (c ∷ []) = if is_digit c then some (c - 48, []) else none
get_hour (c ∷ d ∷ s) =
    if is_digit c
    then if is_digit d then some ((c - 48) * 10 + (d - 48), s) else some (c - 48, d ∷ s)
    else none

-- A minute or a second has two digits; `getnum(value, true)`.
get_two : Text → Option (ℕ × Text)
get_two (c ∷ d ∷ s) = if is_digit c && is_digit d then some ((c - 48) * 10 + (d - 48), s) else none
get_two s = none

abbrev colon : Text → Option Text
colon [] = none
colon (c ∷ s) = if nat_beq c b':' then some s else none

drop_digits : Text → Text
drop_digits [] = []
drop_digits (c ∷ s) = let rest = drop_digits s in if is_digit c then rest else c ∷ s

-- A fraction of a second may follow, though the layout has none.
drop_fraction : Text → Text
unfolding drop_digits
drop_fraction (c ∷ d ∷ s) =
    if (nat_beq c b'.' || nat_beq c b',') && is_digit d then drop_digits (d ∷ s) else c ∷ d ∷ s
drop_fraction s = s

infixl 5 ◌>>=◌
abbrev ◌>>=◌ : {A B : Type 0} → Option A → (A → Option B) → Option B
none >>= f = none
some a >>= f = f a

abbrev below : ℕ → ℕ → Option ℕ
below n x = if ltb x n then some x else none

abbrev at_end : Text → ℕ → Option ℕ
at_end [] t = some t
at_end (c ∷ s) t = none

-- The hour and the minute, in minutes, and what follows them.
hours_minutes : Text → Option (ℕ × Text)
unfolding get_hour get_two
hours_minutes s = do
  (h, s1) ← get_hour s
  h' ← below 24 h
  s2 ← colon s1
  (m, s3) ← get_two s2
  m' ← below 60 m
  some (h' * 60 + m', s3)

-- time.Parse("15:04", s)
parse_short : Text → Option ℕ
unfolding hours_minutes
parse_short s = do (t, rest) ← hours_minutes s; at_end rest t

-- time.Parse("15:04:05", s)
parse_long : Text → Option ℕ
unfolding hours_minutes get_two drop_fraction
parse_long s = do
  (t, s1) ← hours_minutes s
  s2 ← colon s1
  (sec, s3) ← get_two s2
  sec' ← below 60 sec
  at_end (drop_fraction s3) t

unfoldable pub parse_time_of_day : Text → Option ℕ
unfolding parse_short parse_long
parse_time_of_day s = elim (parse_short s) [ some t ↦ some t | none ↦ parse_long s ]

-- `%02d` of a number below 100
abbrev two_digits : ℕ → Text
two_digits n = (n / 10 + 48) ∷ (n % 10 + 48) ∷ []

-- TimeOfDay.String, for hours below 100
unfoldable pub to_string : ℕ → Text
to_string t = two_digits (t / 60) ++ b':' ∷ two_digits (t % 60)

-- Every time of day that is printed is read back as it was.
pub parse-to_string : (t : ℕ) → time_valid t ≡ true → parse_time_of_day (to_string t) ≡ some t
unfolding parse_time_of_day to_string time_valid
parse-to_string t h = ground arith

-- What the parser accepts, in either layout, is a time of day between 00:00 and 23:59.
pub parse-time_valid : (s : Text) (t : ℕ) → parse_time_of_day s ≡ some t → time_valid t ≡ true
unfolding parse_time_of_day time_valid
parse-time_valid s t h = ground arith
