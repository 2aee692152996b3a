-- ===== src/Platform/Examples.antt =====
-- A spelling of uuids for the tests: one character above the digits.
use smartclass.Prelude.{
  ℕ, ◌+◌, ◌-◌, false, Option, none, some, [], ◌∷◌, ◌≡◌, refl, ◌==◌, nat_eq, arith,
}
use smartclass.Prelude.Text.{Text}
use smartclass.Platform.Uuids.{Uuids, colon}

abbrev pub read_one : Text → Option ℕ
read_one [] = none
read_one (c ∷ cs) = some (c - 100)

pub one_letter : (u : ℕ) → some (u + 100 - 100) ≡ some u
one_letter u = ground arith

pub above : (u : ℕ) → (u + 100 == colon) ≡ false
above u = ground arith

abbrev pub letters : Uuids
letters = record {
  to_string = λ u. (u + 100) ∷ [];
  parse = read_one;
  parse-to_string = one_letter;
  to_string_plain = λ u. (above u, tt);
  to_string_filled = λ u. refl;
}
