-- ===== src/Platform/Uuids.antt =====
-- The spelling of uuids is google/uuid's: UUID.String writes hexadecimal digits and dashes, and Parse
-- reads that spelling, and others.
use smartclass.Prelude.{ℕ, false, Option, some, ◌≡◌, ◌==◌, nat_eq, All}
use smartclass.Prelude.Text.{Text, is_nil}

-- ':'
abbrev pub colon : ℕ
colon = 58

pub record Uuids : Type 0 where
  pub to_string : ℕ → Text
  pub parse : Text → Option ℕ
  pub parse-to_string : (u : ℕ) → parse (to_string u) ≡ some u
  pub to_string_plain : (u : ℕ) → All (λ c. c == colon ≡ false) (to_string u)
  pub to_string_filled : (u : ℕ) → is_nil (to_string u) ≡ false
