-- ===== src/User/Repository.antt =====
-- user.go and postgres.go of backend/internal/user, over the table `users`, whose columns `id` and
-- `email` are unique (migrations/00001_init.sql).
use smartclass.Prelude.{
  ℕ, String, Bool, true, false, ◌||◌, Option, none, some, List, [], ◌∷◌, ◌≡◌, ◌==◌, nat_eq, text_eq,
  arith, Has, if◌then◌else◌, inl, inr, ap, Bool-cases,
}
use smartclass.Prelude.Dict.{Dict, get, put, rows, any_row}
use smartclass.Prelude.Text.{Text}
use smartclass.Platform.Errors.{Result, ok, err, not_found, email_taken, internal}
use smartclass.Platform.Exec.{Exec}
use smartclass.Platform.Context.{Ctx, query}
use smartclass.User.{Role}

pub record User : Type 0 where
  pub id : ℕ
  pub email : Text
  pub password_hash : String
  pub full_name : Text
  pub role : Role
  pub language : Text
  pub avatar_url : Text
  pub phone : Text
  pub birth_date : Option ℕ
  pub created_at : ℕ
  pub updated_at : ℕ

abbrev pub Table : Type 0
Table = Dict ℕ User

-- The first row with this address; `LIMIT 1`.
unfoldable pub first_with_email : Text → List (ℕ × User) → Option User
first_with_email email [] = none
first_with_email email (r ∷ rs) =
    let rest = first_with_email email rs in if r.1.email == email then some r.1 else rest

abbrev has_user : Option User → Bool
has_user none = false
has_user (some u) = true

-- A row with the same id or address is a unique violation, which is reported as ErrEmailTaken.
unfoldable pub create : Ctx → User → Exec Table User
create c u table =
    let row = record u { created_at = c.now; updated_at = c.now } in
    if c.fails "users.Create" u.id
    then (err internal, table)
    else if has_user (get table u.id) || any_row (λ i v. v.email == u.email) table
    then (err email_taken, table)
    else (ok row, put table u.id row)

abbrev row_or_missing : Option User → Result User
row_or_missing none = err not_found
row_or_missing (some u) = ok u

unfoldable pub get_by_id : Ctx → Table → ℕ → Result User
get_by_id c table id = query c "users.GetByID" id (row_or_missing (get table id))

unfoldable pub get_by_email : Ctx → Table → Text → Result User
unfolding first_with_email
get_by_email c table email =
    query c "users.GetByEmail" 0 (row_or_missing (first_with_email email (rows table)))

-- UPDATE … WHERE id=$1: the address and the password hash stay.
unfoldable pub update : Ctx → User → Exec Table User
update c u table =
    if c.fails "users.Update" u.id then (err internal, table) else elim (get table u.id) [
      | none ↦ (err not_found, table)
      | some old ↦
          let row = record u { updated_at = c.now } in
          (
            ok row,
            put table u.id (record row {
              email = old.email;
              password_hash = old.password_hash;
              created_at = old.created_at;
            }),
          )
    ]

unfoldable pub update_password : Ctx → ℕ → String → Exec Table (Unit {0})
update_password c id hash table =
    if c.fails "users.UpdatePassword" id then (err internal, table) else elim (get table id) [
      | none ↦ (err not_found, table)
      | some old ↦ (ok tt, put table id (record old { password_hash = hash; updated_at = c.now }))
    ]

pub first_with_email_stored :
    (email : Text) (rs : List (ℕ × User)) (u : User)
    → first_with_email email rs ≡ some u
    → (i : ℕ) × Has (i, u) rs × (u.email ≡ email)
unfolding first_with_email
first_with_email_stored email [] u h = absurd (cc)
first_with_email_stored email ((i, v) ∷ rs) u h = elim (Bool-cases (v.email == email)) [
  | inl e ↦
      let same : v ≡ u = ground arith in (i, inl (cc), cc ((text_eq.beq_iff v.email email).0 e))
  | inr e ↦ let (j, m, f) = first_with_email_stored email rs u (ground arith) in (j, inr m, f)
]

pub first_with_email_missing :
    (email : Text) (rs : List (ℕ × User)) (i : ℕ) (u : User)
    → first_with_email email rs ≡ none
    → Has (i, u) rs
    → u.email == email ≡ false
unfolding first_with_email
first_with_email_missing email [] i u h m = elim m [ ]
first_with_email_missing email ((j, v) ∷ rs) i u h (inl e) =
    let same : u ≡ v = ap (λ (x : ℕ × User). x.1) e in rw same (ground arith)
first_with_email_missing email ((j, v) ∷ rs) i u h (inr m) =
    first_with_email_missing email rs i u (ground arith) m
