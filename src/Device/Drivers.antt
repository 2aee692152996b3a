-- ===== src/Device/Drivers.antt =====
-- driver.go and factory.go of backend/internal/devicectl. A driver is an adapter that talks to a
-- device: here it is what it answers to a command.
use smartclass.Prelude.{ℕ, String, Bool, ◌||◌, Option, none, some, ◌==◌, string_eq}
use smartclass.Prelude.Dict.{Dict, get, put}
use smartclass.Prelude.Text.{Text}
use smartclass.Platform.Errors.{Result, ok, err, driver_not_found}

-- type CommandType string
unfoldable pub command_valid : String → Bool
command_valid c = c == "ON" || c == "OFF" || c == "OPEN" || c == "CLOSE" || c == "SET_VALUE"

-- The value is JSON, as its text.
pub record Command : Type 0 where
  pub kind : String
  pub value : Text

pub record Target : Type 0 where
  pub id : ℕ
  pub brand : String
  pub config : Option Text

-- The struct Result of the package, less the raw answer that nothing reads.
pub record Outcome : Type 0 where
  pub status : String
  pub online : Bool
  pub last_seen : ℕ

pub record Driver : Type 0 where
  pub name : String
  pub execute : Target → Command → Result Outcome

abbrev pub Factory : Type 0
Factory = Dict String Driver

-- Factory.Register
unfoldable pub register : Driver → Factory → Factory
register d f = put f d.name d

abbrev found : Option Driver → Result Driver
found none = err driver_not_found
found (some d) = ok d

-- Factory.Get
unfoldable pub driver_for : Factory → String → Result Driver
driver_for f name = found (get f name)
