-- ===== src/Platform/Context.antt =====
-- What a request brings with it: the clock's readings, fresh uuids, and the failures of the
-- database. Each call of the database carries the operation's name (metrics.WithDBOp) and the
-- uuid that it concerns, and `fails` says which of them return an error of the driver.
use smartclass.Prelude.{ℕ, String, Bool, if◌then◌else◌}
use smartclass.Platform.Errors.{Result, err, internal}

pub record Ctx : Type 0 where
  pub now : ℕ  -- time.Now(), in seconds
  pub fresh : ℕ → ℕ  -- the uuids that uuid.New() returns during the request
  pub fails : String → ℕ → Bool

-- `if err != nil { return err }` after a call of the pool
abbrev pub query {ℓ} : {A : Type ℓ} → Ctx → String → ℕ → Result A → Result A
query c op id r = if c.fails op id then err internal else r
