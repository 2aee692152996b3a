-- ===== src/Drivers/Web.antt =====
-- What the drivers of backend/internal/devicectl/drivers share: HTTP and JSON, which are parameters,
-- and the spelling of addresses. ErrInvalidConfig and ErrUnavailable are `internal`, as in Hass.Driver; the
-- result that a driver returns beside an error, which the services do not read, is left out.
use smartclass.Prelude.{
  ℕ, Bool, Option, none, some, List, [], ◌∷◌, ◌==◌, nat_eq, text_eq, if◌then◌else◌,
}
use smartclass.Prelude.Text.{Text}
use smartclass.Platform.Errors.{Result, ok, err, internal}

-- A JSON value; numbers and arrays are not told apart.
mutual
  pub data Json : Type 0 where
    bool : Bool → Json
    str : Text → Json
    obj : Fields → Json
    null other : Json

  pub data Fields : Type 0 where
    no_field : Fields
    field : Text → Json → Fields → Fields

-- raw[key]
unfoldable pub lookup : Text → Fields → Option Json
lookup key no_field = none
lookup key (field k v rest) = if k == key then some v else lookup key rest

pub record HttpCall : Type 0 where
  pub method : Text
  pub url : Text
  pub headers : List (Text × Text)
  pub body : Text

-- The body is none where it cannot be read.
pub record HttpReply : Type 0 where
  pub status : ℕ
  pub body : Option Text

pub record Web : Type 0 where
  -- Do: none where the request cannot be made or is not answered
  pub send : HttpCall → Option HttpReply
  pub now : ℕ
  -- json.Unmarshal into a map: none where the body is no object
  pub decode : Text → Option Fields
  -- `%v` of the value of a command: none where it is nil
  pub format : Text → Option Text

abbrev pub slash : ℕ
slash = b'/'

-- strings.TrimLeft(s, "/") and strings.TrimRight(s, "/")
unfoldable pub trim_left_slashes : Text → Text
trim_left_slashes [] = []
trim_left_slashes (c ∷ cs) = let rest = trim_left_slashes cs in if c == slash then rest else c ∷ cs

abbrev pub slash_before : ℕ → Text → Text
slash_before c [] = if c == slash then [] else c ∷ []
slash_before c (d ∷ ds) = c ∷ d ∷ ds

unfoldable pub trim_right_slashes : Text → Text
trim_right_slashes [] = []
trim_right_slashes (c ∷ cs) = slash_before c (trim_right_slashes cs)

-- The reply where Do gives one
abbrev pub replied : Option HttpReply → Result HttpReply
replied none = err internal
replied (some r) = ok r

abbrev pub string_of : Option Json → Option Text
string_of (some (str t)) = some t
string_of v = none

abbrev pub fields_of : Option Json → Option Fields
fields_of (some (obj fs)) = some fs
fields_of v = none
