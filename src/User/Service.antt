-- ===== src/User/Service.antt =====
-- service.go of backend/internal/user: the profile and the password of an account.
use smartclass.Prelude.{ℕ, not, Option, none, some, ltb, length}
use smartclass.Prelude.Text.{Text, trim_space, to_lower}
use smartclass.Platform.Errors.{
  Result, not_found_as, user_not_found, password_mismatch, weak_password, reject_if,
}
use smartclass.Platform.Exec.{Exec, mapping, read, lift, ◌>>=◌}
use smartclass.Platform.Context.{Ctx}
use smartclass.User.Repository
use smartclass.User.Repository.{User, Table}
use smartclass.User.Hasher.{Hasher, hashed}

-- Service.Get
unfoldable pub find : Ctx → Table → ℕ → Result User
find c table id = not_found_as user_not_found (Repository.get_by_id c table id)

pub record UpdateProfileInput : Type 0 where
  pub full_name : Option Text
  pub language : Option Text
  pub avatar_url : Option Text
  pub phone : Option Text

abbrev pub or_else : Option Text → Text → Text
or_else none old = old
or_else (some new) old = new

abbrev pub set_or_keep : (Text → Text) → Option Text → Text → Text
set_or_keep f none old = old
set_or_keep f (some new) old = f new

abbrev pub edited : UpdateProfileInput → User → User
edited input u = record u {
  full_name = set_or_keep trim_space input.full_name u.full_name;
  language = set_or_keep (λ l. to_lower (trim_space l)) input.language u.language;
  avatar_url = or_else input.avatar_url u.avatar_url;
  phone = or_else input.phone u.phone;
}

unfoldable pub update_profile : Ctx → ℕ → UpdateProfileInput → Exec Table User
unfolding find
update_profile c id input = read (λ table. find c table id) >>= λ u.
    mapping (not_found_as user_not_found) (Repository.update c (edited input u))

-- A new password has at least eight bytes.
unfoldable pub change_password : Hasher → Ctx → ℕ → Text → Text → Exec Table (Unit {0})
unfolding find
change_password h c id current new = lift (reject_if (ltb (length new) 8) weak_password) >>= λ _.
    read (λ table. find c table id) >>= λ u.
    lift (reject_if (not (h.compare u.password_hash current)) password_mismatch) >>= λ _.
    lift (hashed (h.hash new)) >>= λ hash.
    mapping (not_found_as user_not_found) (Repository.update_password c id hash)
