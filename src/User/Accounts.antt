-- ===== src/User/Accounts.antt =====
-- What holds of the table of users: ids and addresses name one user each.
use smartclass.Prelude.{
  ℕ, String, false, some, inl, inr, ◌≡◌, ◌↔◌, ap, ◌==◌, nat_eq, text_eq, arith, Option-cases,
}
use smartclass.Prelude.Dict.{get, get-put, rows, Has-rows, any_row, any_row-get}
use smartclass.Prelude.Text.{Text}
use smartclass.Platform.Context.{Ctx}
use smartclass.User.Repository.{
  User, Table, create, update, update_password, first_with_email, first_with_email_stored,
  first_with_email_missing,
}

pub record IsAccounts (table : Table) : Type 0 where
  pub keyed : (i : ℕ) (u : User) → get table i ≡ some u → u.id ≡ i
  pub addressed :
      (i j : ℕ) (u v : User)
      → get table i ≡ some u
      → get table j ≡ some v
      → u.email ≡ v.email
      → i ≡ j

-- A new row's address is that of no stored row.
fresh_address :
    (email : Text) (table : Table) (i : ℕ) (u : User)
    → any_row (λ i v. v.email == email) table ≡ false
    → get table i ≡ some u
    → ¬ (u.email ≡ email)
fresh_address email table i u h found e =
    cc
      (any_row-get (λ i v. v.email == email) table i u h found, (text_eq.beq_iff u.email email).1 e)

pub create-IsAccounts :
    (c : Ctx) (u : User) (table : Table) → IsAccounts table → IsAccounts (create c u table).1
unfolding create
create-IsAccounts c u table h = record {
  keyed = λ i v. grind (arith, get-put, h.keyed);
  addressed = λ i j v w. grind (arith, get-put, h.addressed, fresh_address u.email table);
}

pub update-IsAccounts :
    (c : Ctx) (u : User) (table : Table) → IsAccounts table → IsAccounts (update c u table).1
unfolding update
update-IsAccounts c u table h = record {
  keyed = λ i v. grind (arith, get-put, h.keyed);
  addressed = λ i j v w. grind (arith, get-put, h.addressed);
}

pub update_password-IsAccounts :
    (c : Ctx) (id : ℕ) (hash : String) (table : Table)
    → IsAccounts table
    → IsAccounts (update_password c id hash table).1
unfolding update_password
update_password-IsAccounts c id hash table h = record {
  keyed = λ i v. grind (arith, get-put, h.keyed);
  addressed = λ i j v w. grind (arith, get-put, h.addressed);
}

-- The query by address finds the one user who has it.
pub first_with_email_iff :
    (table : Table) (email : Text) (u : User)
    → IsAccounts table
    → (first_with_email email (rows table) ≡ some u)
      ↔ ((i : ℕ) × (get table i ≡ some u) × (u.email ≡ email))
first_with_email_iff table email u h = (there, λ (i, stored, e). back i stored e)
  where
    there :
        first_with_email email (rows table) ≡ some u
        → (i : ℕ) × (get table i ≡ some u) × (u.email ≡ email)
    there f =
        let (i, m, e) = first_with_email_stored email (rows table) u f in
        (i, (Has-rows table i u).0 m, e)

    back :
        (i : ℕ)
        → get table i ≡ some u
        → u.email ≡ email
        → first_with_email email (rows table) ≡ some u
    back i stored e = elim (Option-cases (first_with_email email (rows table))) [
      | inl nothing ↦ absurd (
          cc (
            first_with_email_missing email (rows table) i u nothing ((Has-rows table i u).1 stored),
            (text_eq.beq_iff u.email email).1 e,
          ))
      | inr (v, found) ↦
          let (j, m, f) = first_with_email_stored email (rows table) v found in
          let stored' = (Has-rows table j v).0 m in
          let k : i ≡ j = h.addressed i j u v stored stored' (cc) in cc (ap (get table) k)
    ]
