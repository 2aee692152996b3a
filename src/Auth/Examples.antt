-- ===== src/Auth/Examples.antt =====
-- One account, its login, the rotation of its token, and a replay. The token library of these
-- tests hands out the claims themselves, and their hash of a password is a constant.
use smartclass.Prelude.{
  String, ◌+◌, Bool, true, false, ◌&&◌, Option, none, some, [], ◌∷◌, ◌≡◌, ◌≢◌, refl, ◌==◌, nat_eq,
  string_eq, text_eq, arith, if◌then◌else◌, ◌↔◌,
}
use smartclass.Prelude.Dict.{empty, rows, get, put, get-put, get-empty}
use smartclass.Prelude.Text.{Text, text, trim_space, to_lower}
use smartclass.Platform.Errors.{Error, ok, err, invalid_refresh, invalid_credentials}
use smartclass.Platform.Context.{Ctx}
use smartclass.User.{role_teacher}
use smartclass.User.Repository
use smartclass.User.Repository.{User, first_with_email, get_by_email, get_by_id}
use smartclass.User.Accounts.{IsAccounts}
use smartclass.User.Hasher.{Hasher}
use smartclass.Tokens.{
  Claims, Pair, Jwt, access, refresh, Validation, claims_accepted, claims_of, jti, sign, issue,
  parse,
}
use smartclass.Auth.Store.{is_live, is_used, track, status, mark_used, revoke_user}
use smartclass.Auth.MemStore.{mem_track, mem_status, mem_mark_used, mem_revoke_user, mem_agrees}
use smartclass.Auth.Service.{
  Db, normalize_email, issue_pair, authenticate, login, refresh_claims, settle, redeem, rotate,
  refresh_tokens, logout,
}
use smartclass.Auth.Requests.{logout_all, perform_all}
use smartclass.Auth.Rotation.{refresh_tokens_once}
use smartclass.Auth.Revocation.{IsLoggedOut, IsApart, logout-IsLoggedOut, refresh_tokens_replay}
use smartclass.Auth.Accounts.{authenticate_iff}
use smartclass.Auth.Sessions.{login-refresh}

abbrev open_parse : Validation → Claims → Option Claims
open_parse v t = if claims_accepted v t then some t else none

open_parses :
    (key : String) (v : Validation) (cl t : Claims)
    → some cl ≡ some t
    → claims_accepted v cl ≡ true
    → open_parse v t ≡ some cl
open_parses key v cl t signed good = ground arith

abbrev open_jwt : Jwt
open_jwt = record {
  Token = Claims;
  secret = "key";
  access_ttl = 15;
  refresh_ttl = 1000;
  issuer = "smartclass";
  signed_string = λ key cl. some cl;
  parse_with_claims = λ key. open_parse;
  parse-signed = open_parses;
  uuid_string = λ u. u ∷ [];
  uuid_parse = λ s. elim s [ [] ↦ none | (u ∷ rest) ↦ some u ];
  uuid_parse-string = λ u. refl;
  uuid_string_filled = λ u. refl;
}

abbrev one_hash_of : Text → Option String
one_hash_of p = if p == text "secret" then some "$2a$" else none

abbrev one_compare : String → Text → Bool
one_compare h p = h == "$2a$" && p == text "secret"

one_hash_compares : (p : Text) (h : String) → one_hash_of p ≡ some h → one_compare h p ≡ true
one_hash_compares p h made = ground (arith, string_eq.beq_iff h "$2a$")

abbrev one_hash : Hasher
one_hash = record { hash = one_hash_of; compare = one_compare; compare-hash = one_hash_compares }

abbrev early : Ctx
early = record { now = 100; fresh = λ n. n + 50; fails = λ op id. false }

abbrev later : Ctx
later = record { now = 160; fresh = λ n. n + 70; fails = λ op id. false }

abbrev aigul : User
aigul = record {
  id = 10;
  email = text "aigul@school.kz";
  password_hash = "$2a$";
  full_name = text "Aigul";
  role = role_teacher;
  language = text "kz";
  avatar_url = [];
  phone = [];
  birth_date = none;
  created_at = 5;
  updated_at = 5;
}

abbrev accounts : Repository.Table
accounts = put empty 10 aigul

accounts-IsAccounts : IsAccounts accounts
accounts-IsAccounts = record {
  keyed = λ i u. grind (arith, get-put, get-empty);
  addressed = λ i j u v. grind (arith, get-put, get-empty);
}

-- The first login's pair, and the rotation's.
abbrev pair_of : Ctx → Pair Claims
pair_of c = record {
  access = claims_of open_jwt 10 role_teacher access (c.fresh 1) c.now 15;
  refresh = claims_of open_jwt 10 role_teacher refresh (c.fresh 2) c.now 1000;
  access_expires_at = c.now + 15;
  refresh_expires_at = c.now + 1000;
  refresh_jti = c.fresh 2;
}

abbrev before : Db
before = record { users = accounts; tokens = empty }

abbrev signed_in : Db
signed_in = (login open_jwt one_hash early (text " Aigul@School.kz ") (text "secret") before).1

login_run :
    (login open_jwt one_hash early (text " Aigul@School.kz ") (text "secret") before).0
    ≡ ok (record { user = aigul; tokens = pair_of early })
unfolding login authenticate get_by_email first_with_email normalize_email to_lower trim_space
    issue_pair issue sign track get put rows empty
login_run = refl

-- The tables once the token is tracked, and once it is used.
abbrev tracked : Db
tracked = record {
  users = accounts;
  tokens =
      put empty 52 (record { user_id = 10; expires_at = 1100; used_at = none; revoked_at = none });
}

abbrev used : Db
used = record {
  users = accounts;
  tokens =
      put empty 52
        (record { user_id = 10; expires_at = 1100; used_at = some 120; revoked_at = none });
}

claims_run : refresh_claims open_jwt later (pair_of early).refresh ≡ ok (pair_of early).refresh
unfolding refresh_claims parse jti
claims_run = refl

refresh_tokens_replay_example :
    ((refresh_tokens open_jwt later (λ d. d) (pair_of early).refresh used).0 ≡ err invalid_refresh)
    × IsLoggedOut 10 (refresh_tokens open_jwt later (λ d. d) (pair_of early).refresh used).1
unfolding get put empty jti is_used
refresh_tokens_replay_example =
    refresh_tokens_replay open_jwt later (λ d. d) (pair_of early).refresh used
      (pair_of early).refresh
      (record { user_id = 10; expires_at = 1100; used_at = some 120; revoked_at = none }) claims_run
      found marked refl refl
  where
    found :
        get used.tokens (jti open_jwt (pair_of early).refresh)
        ≡ some (record { user_id = 10; expires_at = 1100; used_at = some 120; revoked_at = none })
    found = refl

    marked :
        is_used (record { user_id = 10; expires_at = 1100; used_at = some 120; revoked_at = none })
        ≡ true
    marked = refl

logout-IsLoggedOut_example :
    IsLoggedOut 10 (logout later 10 tracked).1
    × IsApart 10 tracked (logout later 10 tracked).1
    × ((logout later 10 tracked).1.users ≡ accounts)
unfolding logout revoke_user
logout-IsLoggedOut_example = logout-IsLoggedOut later 10 tracked done
  where
    done : (logout later 10 tracked).0 ≡ ok tt
    done = refl

rotated_run :
    (refresh_tokens open_jwt later (λ d. d) (pair_of early).refresh tracked).0
    ≡ ok (record { user = aigul; tokens = pair_of later })
unfolding refresh_tokens refresh_claims parse jti status get put empty is_used is_live redeem settle
    mark_used rotate get_by_id issue_pair issue sign track
rotated_run = refl

refresh_tokens_once_example :
    (e : Error) × ((refresh_tokens open_jwt later
        (λ d.
          perform_all open_jwt one_hash
            ((later, logout_all 7) ∷ [])
            (refresh_tokens open_jwt later (λ d. d) (pair_of early).refresh tracked).1)
        (pair_of early).refresh
        tracked).0
      ≡ err e)
refresh_tokens_once_example =
    refresh_tokens_once open_jwt one_hash later later (λ d. d)
      (λ d.
        perform_all open_jwt one_hash ((later, logout_all 7) ∷ [])
          (refresh_tokens open_jwt later (λ d. d) (pair_of early).refresh tracked).1)
      (pair_of early).refresh tracked tracked (record { user = aigul; tokens = pair_of later })
      ((later, logout_all 7) ∷ []) rotated_run refl refl

authenticate_iff_example :
    ((authenticate one_hash early accounts (text " Aigul@School.kz ") (text "secret") ≡ ok aigul)
      ↔ ((get accounts 10 ≡ some aigul)
          × (aigul.email ≡ normalize_email (text " Aigul@School.kz "))
          × (one_compare "$2a$" (text "secret") ≡ true)))
    × ((e : Error)
        → authenticate one_hash early accounts (text " Aigul@School.kz ") (text "secret") ≡ err e
        → e ≡ invalid_credentials)
authenticate_iff_example =
    authenticate_iff one_hash early accounts (text " Aigul@School.kz ") (text "secret") aigul
      accounts-IsAccounts refl

login-refresh_example :
    (refresh_tokens open_jwt later (λ d. d) (pair_of early).refresh signed_in).0
    ≡ ok (record { user = aigul; tokens = pair_of later })
unfolding issue sign login authenticate get_by_email first_with_email normalize_email to_lower
    trim_space issue_pair track get put rows empty
login-refresh_example =
    login-refresh open_jwt one_hash early later (text " Aigul@School.kz ") (text "secret") before
      (record { user = aigul; tokens = pair_of early }) (pair_of later) accounts-IsAccounts
      login_run (ground arith) (ground arith) (ground arith) refl (λ op id. refl) issued
      (ground arith) free
  where
    issued : issue open_jwt later 10 role_teacher ≡ ok (pair_of later)
    issued = refl

    free : get signed_in.tokens 72 ≡ none
    free = refl

abbrev dana : User
dana = record {
  id = 50;
  email = text "dana@school.kz";
  password_hash = "$2a$";
  full_name = text "Dana";
  role = role_teacher;
  language = text "kz";
  avatar_url = [];
  phone = [];
  birth_date = none;
  created_at = 100;
  updated_at = 100;
}

mem_agrees_example :
    (mem_status tracked.tokens 52 ≡ status later tracked.tokens 52)
    × (mem_revoke_user later 10 tracked.tokens ≡ revoke_user later 10 tracked.tokens)
    × (get tracked.tokens 52 ≡ none
        → mem_track 52 10 1100 tracked.tokens ≡ track later 52 10 1100 tracked.tokens)
    × (get tracked.tokens 52 ≢ none
        → mem_mark_used later 52 tracked.tokens ≡ mark_used later 52 tracked.tokens)
mem_agrees_example = mem_agrees later tracked.tokens 52 10 1100 (λ op id. refl)
