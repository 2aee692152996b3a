-- ===== src/Auth/Accounts.antt =====
-- Who logs in, and as whom: registration, passwords, and the first rotation after a login.
use smartclass.Prelude.{
  String, true, false, inl, inr, some, ◌≡◌, ◌↔◌, nat_eq, text_eq, arith, Option-cases,
}
use smartclass.Prelude.Dict.{get, get-put, rows}
use smartclass.Prelude.Text.{Text}
use smartclass.Platform.Context.{Ctx}
use smartclass.Platform.Errors.{Error, ok, err, invalid_credentials}
use smartclass.User.Repository
use smartclass.User.Repository.{User, first_with_email, get_by_email}
use smartclass.User.Accounts.{IsAccounts, create-IsAccounts, first_with_email_iff}
use smartclass.User.Hasher.{Hasher}
use smartclass.Tokens.{Jwt}
use smartclass.Auth.Service.{
  Db, RegisterInput, LoginResult, normalize_email, account_of, issue_pair, authenticate, register,
}

-- With the query answered, credentials are accepted exactly where the stored account with the
-- normalised address has a hash that the password passes; in every other case the error is
-- ErrInvalidCredentials, whether the address or the password is wrong.
pub authenticate_iff :
    (h : Hasher) (c : Ctx) (users : Repository.Table) (email password : Text) (u : User)
    → IsAccounts users
    → c.fails "users.GetByEmail" 0 ≡ false
    → ((authenticate h c users email password ≡ ok u) ↔ (
        (get users u.id ≡ some u)
        × (u.email ≡ normalize_email email)
        × (h.compare u.password_hash password ≡ true)))
      × (((e : Error) → authenticate h c users email password ≡ err e → e ≡ invalid_credentials))
unfolding authenticate get_by_email
authenticate_iff h c users email password u accounts up =
    elim (Option-cases (first_with_email (normalize_email email) (rows users))) [
      | inl missing ↦ (
        (
          λ accepted. absurd (ground arith),
          λ (stored, same, passed). absurd (
              cc (
                missing,
                (first_with_email_iff users (normalize_email email) u accounts).1
                    (u.id, stored, same),
              )),
        ),
        ground arith,
      )
      | inr (v, found) ↦
          let (i, stored, same) =
            (first_with_email_iff users (normalize_email email) v accounts).0 found in
          let key = accounts.keyed i v stored in
          (
            (
              λ accepted.
                  let passed : h.compare v.password_hash password ≡ true = ground arith in
                  let own : v ≡ u = ground arith in
                  (cc (own, stored, key), cc (own, same), cc (own, passed)),
              λ (stored', same', passed).
                  let own =
                    (first_with_email_iff users (normalize_email email) u accounts).1
                      (u.id, stored', same') in
                  ground arith,
            ),
            ground arith,
          )
    ]

-- Registration keeps ids and addresses unique.
pub register-IsAccounts :
    (j : Jwt) (h : Hasher) (c : Ctx) (input : RegisterInput) (db : Db)
    → IsAccounts db.users
    → IsAccounts (register j h c input db).1.users
unfolding register issue_pair
register-IsAccounts j h c input db accounts =
    let kept = λ (hash : String). create-IsAccounts c (account_of c input hash) db.users accounts in
    grind (arith, kept)

-- A registration that succeeds is followed by logins: the password that was registered is accepted
-- with every spelling of the address that normalises alike, for the account that was created,
-- which has the given role and the normalised address.
pub register-authenticate :
    (j : Jwt) (h : Hasher) (c c' : Ctx) (input : RegisterInput) (email : Text) (db : Db)
    (r : LoginResult j.Token)
    → IsAccounts db.users
    → (register j h c input db).0 ≡ ok r
    → normalize_email email ≡ normalize_email input.email
    → c'.fails "users.GetByEmail" 0 ≡ false
    → (authenticate h c' (register j h c input db).1.users email input.password ≡ ok r.user)
      × (r.user.role ≡ input.role)
      × (r.user.email ≡ normalize_email input.email)
unfolding register issue_pair Repository.create
register-authenticate j h c c' input email db r accounts done alike up = (
  (authenticate_iff h c' (register j h c input db).1.users email input.password r.user
        (register-IsAccounts j h c input db accounts) up).0.1
      (grind (arith, get-put), ground (arith), grind (arith, h.compare-hash)),
  ground arith,
  ground arith,
)
