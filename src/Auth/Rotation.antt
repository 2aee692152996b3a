-- ===== src/Auth/Rotation.antt =====
-- A refresh token buys one pair of tokens: the guarantee of Service.Refresh.
use smartclass.Prelude.{ℕ, true, false, inl, inr, List, ◌≡◌, ap, nat_eq, arith}
use smartclass.Prelude.Dict.{get-put}
use smartclass.Platform.Context.{Ctx}
use smartclass.Platform.Errors.{Error, ok, err, Result-cases}
use smartclass.User.Hasher.{Hasher}
use smartclass.Tokens.{Jwt, Claims, jti}
use smartclass.Auth.Store.{mark_used}
use smartclass.Auth.Service.{Db, LoginResult, refresh_claims, burn, settle, redeem, refresh_tokens}
use smartclass.Auth.Requests.{Request, perform_all}
use smartclass.Auth.Spent.{spent, spent-rotate, spent-perform_all}

-- Marking succeeds on a row that is neither used nor revoked, and spends it.
redeem_ok :
    (c : Ctx) (id user_id : ℕ) (db : Db)
    → (redeem c id user_id db).0 ≡ ok tt
    → (spent id db ≡ false) × (spent id (redeem c id user_id db).1 ≡ true)
unfolding redeem settle burn mark_used
redeem_ok c id user_id db h = (grind (arith), grind (arith, get-put))

-- A rotation that succeeds had a valid refresh token whose row was not spent when it was marked,
-- and leaves that row spent.
pub refresh_tokens_ok :
    (j : Jwt) (c : Ctx) (meanwhile : Db → Db) (token : j.Token) (db : Db) (r : LoginResult j.Token)
    → (refresh_tokens j c meanwhile token db).0 ≡ ok r
    → (cl : Claims) × (refresh_claims j c token ≡ ok cl)
      × (spent (jti j cl) (meanwhile db) ≡ false)
      × (spent (jti j cl) (refresh_tokens j c meanwhile token db).1 ≡ true)
unfolding refresh_tokens burn
refresh_tokens_ok j c meanwhile token db r h = elim (Result-cases (refresh_claims j c token)) [
  | inr (e, bad) ↦ absurd (grind (arith))
  | inl (cl, good) ↦ (cl, good, grind (arith, redeem_ok), grind (arith, redeem_ok, spent-rotate))
]

-- One refresh token buys at most one pair: after a rotation of a token has succeeded and any
-- requests have followed, a rotation of the same token fails, also if it had read the token's row
-- before the first one marked it. The token is taken to read as the same claims both times.
pub refresh_tokens_once :
    (j : Jwt) (h : Hasher) (c c' : Ctx) (meanwhile meanwhile' : Db → Db) (token : j.Token)
    (db db' : Db) (r : LoginResult j.Token) (rs : List (Ctx × Request j.Token))
    → (refresh_tokens j c meanwhile token db).0 ≡ ok r
    → refresh_claims j c' token ≡ refresh_claims j c token
    → meanwhile' db' ≡ perform_all j h rs (refresh_tokens j c meanwhile token db).1
    → (e : Error) × ((refresh_tokens j c' meanwhile' token db').0 ≡ err e)
refresh_tokens_once j h c c' meanwhile meanwhile' token db db' r rs first same after =
    elim (Result-cases (refresh_tokens j c' meanwhile' token db').0) [
      | inr refused ↦ refused
      | inl (r', second) ↦
          let (cl, good, unspent, used) = refresh_tokens_ok j c meanwhile token db r first in
          let (cl', good', unspent', used') =
            refresh_tokens_ok j c' meanwhile' token db' r' second in
          let still =
            spent-perform_all j h rs (refresh_tokens j c meanwhile token db).1 (jti j cl) used in
          let one : ok cl ≡ ok cl' = cc (good, good', same) in
          let claims : cl ≡ cl' = ground arith in absurd (clash cl cl' claims unspent' still)
    ]
  where
    clash :
        (cl cl' : Claims)
        → cl ≡ cl'
        → spent (jti j cl') (meanwhile' db') ≡ false
        → spent (jti j cl) (perform_all j h rs (refresh_tokens j c meanwhile token db).1) ≡ true
        → ⊥
    clash cl cl' claims unspent still =
        let at : spent (jti j cl) (meanwhile' db') ≡ false = rw claims unspent in
        let at' = ap (spent (jti j cl)) after in grind (arith)
