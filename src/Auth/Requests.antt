-- ===== src/Auth/Requests.antt =====
-- The requests that the handlers of backend/internal/auth pass to the service.
use smartclass.Prelude.{ℕ, Bool, true, false, List, [], ◌∷◌}
use smartclass.Prelude.Text.{Text}
use smartclass.Platform.Errors.{Result, ok, err}
use smartclass.Platform.Context.{Ctx}
use smartclass.User.Hasher.{Hasher}
use smartclass.Tokens.{Jwt}
use smartclass.Auth.Service.{Db, RegisterInput, register, login, refresh_tokens, logout}

pub data Request (Token : Type 0) : Type 0 where
  register_with : RegisterInput → Request Token
  login_with : Text → Text → Request Token
  refresh_with : Token → Request Token
  logout_all : ℕ → Request Token

abbrev handed : {A : Type 0} → Result A × Db → Bool × Db
handed (ok a, db) = (true, db)
handed (err e, db) = (false, db)

-- Whether a pair of tokens was handed out, and the tables afterwards.
unfoldable pub perform : (j : Jwt) → Hasher → Ctx → Request j.Token → Db → Bool × Db
perform j h c (register_with input) db = handed (register j h c input db)
perform j h c (login_with email password) db = handed (login j h c email password db)
perform j h c (refresh_with token) db = handed (refresh_tokens j c (λ d. d) token db)
perform j h c (logout_all user_id) db = (false, (logout c user_id db).1)

-- What other requests do while one is served.
unfoldable pub perform_all : (j : Jwt) → Hasher → List (Ctx × Request j.Token) → Db → Db
unfolding perform
perform_all j h [] db = db
perform_all j h ((c, r) ∷ rs) db = perform_all j h rs (perform j h c r db).1
