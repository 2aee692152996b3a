-- ===== src/User/Credentials.antt =====
-- What the requests of backend/internal/user change in an account, and what they leave.
use smartclass.Prelude.{
  ℕ, ◌≤◌, true, some, inl, inr, ◌≡◌, ◌≢◌, refl, nat_eq, arith, length, Option-cases,
}
use smartclass.Prelude.Dict.{get, get-put}
use smartclass.Prelude.Text.{Text}
use smartclass.Platform.Context.{Ctx}
use smartclass.Platform.Errors.{Error, ok, err, Result-cases}
use smartclass.User.Repository
use smartclass.User.Repository.{User, Table, get_by_id, update_password}
use smartclass.User.Accounts.{IsAccounts}
use smartclass.User.Hasher.{Hasher}
use smartclass.User.Service.{UpdateProfileInput, find, update_profile, change_password}

-- A profile request changes no other account, and of its own neither the id, the address, the
-- password, the role nor the time of creation.
pub update_profile_keeps :
    (c : Ctx) (id i : ℕ) (input : UpdateProfileInput) (table : Table) (u : User)
    → IsAccounts table
    → get table i ≡ some u
    → (v : User) × (get (update_profile c id input table).1 i ≡ some v)
      × (v.id ≡ u.id)
      × (v.email ≡ u.email)
      × (v.password_hash ≡ u.password_hash)
      × (v.role ≡ u.role)
      × (v.created_at ≡ u.created_at)
      × (i ≢ id → v ≡ u)
unfolding update_profile Repository.update find get_by_id
update_profile_keeps c id i input table u accounts stored =
    elim (Option-cases (get (update_profile c id input table).1 i)) [
      | inl gone ↦ absurd (grind (arith, get-put))
      | inr (v, found) ↦ (
        v,
        found,
        grind (arith, get-put, accounts.keyed),
        grind (arith, get-put, accounts.keyed),
        grind (arith, get-put, accounts.keyed),
        grind (arith, get-put, accounts.keyed),
        grind (arith, get-put, accounts.keyed),
        λ other. grind (arith, get-put, accounts.keyed),
      )
    ]

-- A password is changed only by who knows the old one, to one of at least eight bytes; the new hash
-- is the only thing that changes in the account, and the new password passes it.
pub change_password_ok :
    (h : Hasher) (c : Ctx) (id : ℕ) (current new : Text) (table : Table)
    → (change_password h c id current new table).0 ≡ ok tt
    → (u v : User) × (get table id ≡ some u)
      × (h.compare u.password_hash current ≡ true)
      × (8 ≤ length new)
      × (get (change_password h c id current new table).1 id ≡ some v)
      × (h.compare v.password_hash new ≡ true)
      × (v ≡ record u { password_hash = v.password_hash; updated_at = c.now })
unfolding change_password update_password find get_by_id
change_password_ok h c id current new table done = elim (Result-cases (find c table id)) [
  | inr (e, missing) ↦ absurd (ground arith)
  | inl (u, found) ↦ elim (Option-cases (h.hash new)) [
    | inl unhashed ↦ absurd (ground arith)
    | inr (hash, hashed) ↦ (
      u,
      record u { password_hash = hash; updated_at = c.now },
      ground arith,
      ground arith,
      ground arith,
      grind (arith, get-put),
      h.compare-hash new hash hashed,
      refl,
    )
  ]
]

-- A password request that is refused changes nothing.
pub change_password_refused :
    (h : Hasher) (c : Ctx) (id : ℕ) (current new : Text) (table : Table) (e : Error)
    → (change_password h c id current new table).0 ≡ err e
    → (change_password h c id current new table).1 ≡ table
unfolding change_password update_password
change_password_refused h c id current new table e h' = ground arith
