-- ===== src/User.antt =====
-- backend/internal/user: roles and principals (user.go), shared by the other packages.
pub mod Repository
pub mod Accounts
pub mod Hasher
pub mod Service
pub mod Credentials
pub mod Examples
use smartclass.Prelude.{ℕ, String, Bool, ◌||◌, ◌==◌, string_eq}

-- type Role string
abbrev pub Role : Type 0
Role = String

abbrev pub role_teacher : Role
role_teacher = "teacher"

abbrev pub role_admin : Role
role_admin = "admin"

abbrev pub role_technician : Role
role_technician = "technician"

-- Role.Valid
unfoldable pub role_valid : Role → Bool
role_valid r = r == role_teacher || r == role_admin || r == role_technician

-- Who makes the request: classroom.Principal, and Principal of the middleware.
pub record Principal : Type 0 where
  pub user_id : ℕ
  pub role : Role
