-- ===== src/User/Hasher.antt =====
-- backend/internal/platform/hasher: bcrypt, of which the services use that it accepts the password
-- that a hash was made of.
use smartclass.Prelude.{String, Bool, true, Option, none, some, ◌≡◌}
use smartclass.Prelude.Text.{Text}
use smartclass.Platform.Errors.{Result, ok, err, internal}

pub record Hasher : Type 0 where
  pub hash : Text → Option String
  pub compare : String → Text → Bool
  pub compare-hash : (p : Text) (h : String) → hash p ≡ some h → compare h p ≡ true

-- `if err != nil { return err }` after Hash
abbrev pub hashed : Option String → Result String
hashed none = err internal
hashed (some h) = ok h
