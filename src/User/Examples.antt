-- ===== src/User/Examples.antt =====
-- A table with two accounts, and hashing that is reversible.
use smartclass.Prelude.{
  ◌≤◌, String, Bool, true, false, Option, none, some, [], ◌≡◌, refl, ◌==◌, ◌&&◌, ◌||◌, ◌+◌, text_eq,
  string_eq, nat_eq, arith, length, if◌then◌else◌,
}
use smartclass.Prelude.Dict.{empty, get, put, get-put, get-empty}
use smartclass.Prelude.Text.{Text, text}
use smartclass.Platform.Context.{Ctx}
use smartclass.Platform.Errors.{ok, err, password_mismatch}
use smartclass.User.{role_teacher}
use smartclass.User.Repository.{User, Table, get_by_id, update_password}
use smartclass.User.Accounts.{IsAccounts}
use smartclass.User.Hasher.{Hasher}
use smartclass.User.Service.{find, change_password}
use smartclass.User.Credentials.{change_password_ok}

abbrev noon : Ctx
noon = record { now = 700; fresh = λ n. n + 50; fails = λ op id. false }

abbrev hash_of : Text → Option String
hash_of p =
    if p == text "new secret" then some "n" else if p == text "old secret" then some "o" else none

abbrev compare_of : String → Text → Bool
compare_of h p = (h == "n" && p == text "new secret") || (h == "o" && p == text "old secret")

hash_compares : (p : Text) (h : String) → hash_of p ≡ some h → compare_of h p ≡ true
hash_compares p h made = ground (arith, string_eq.beq_iff h "n", string_eq.beq_iff h "o")

abbrev two_hashes : Hasher
two_hashes = record { hash = hash_of; compare = compare_of; compare-hash = hash_compares }

abbrev marat : User
marat = record {
  id = 3;
  email = text "marat@school.kz";
  password_hash = "o";
  full_name = text "Marat";
  role = role_teacher;
  language = text "kz";
  avatar_url = [];
  phone = [];
  birth_date = none;
  created_at = 5;
  updated_at = 5;
}

abbrev staff : Table
staff = put empty 3 marat

staff-IsAccounts : IsAccounts staff
staff-IsAccounts = record {
  keyed = λ i u. grind (arith, get-put, get-empty);
  addressed = λ i j u v. grind (arith, get-put, get-empty);
}

marat_stored : get staff 3 ≡ some marat
marat_stored = grind (arith, get-put)

change_run :
    (change_password two_hashes noon 3 (text "old secret") (text "new secret") staff).0 ≡ ok tt
unfolding change_password find get_by_id update_password get put empty
change_run = refl

refused_run :
    (change_password two_hashes noon 3 (text "no secret") (text "new secret") staff).0
    ≡ err password_mismatch
unfolding change_password find get_by_id update_password get put empty
refused_run = refl

change_password_ok_example :
    (u v : User) × (get staff 3 ≡ some u)
    × (compare_of u.password_hash (text "old secret") ≡ true)
    × (8 ≤ length (text "new secret"))
    × (get (change_password two_hashes noon 3 (text "old secret") (text "new secret") staff).1 3
        ≡ some v)
    × (compare_of v.password_hash (text "new secret") ≡ true)
    × (v ≡ record u { password_hash = v.password_hash; updated_at = 700 })
change_password_ok_example =
    change_password_ok two_hashes noon 3 (text "old secret") (text "new secret") staff change_run
