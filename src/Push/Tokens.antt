-- ===== src/Push/Tokens.antt =====
-- model.go, postgres.go and service.go of backend/internal/devicetoken, over the table
-- `device_tokens` (migrations), which has one row for a user and a token.
use smartclass.Prelude.{
  ℕ, String, Bool, none, some, List, ◌==◌, nat_eq, text_eq, pair_eq, if◌then◌else◌, leb, keep,
}
use smartclass.Prelude.Dict.{Dict, get, put, remove, rows}
use smartclass.Prelude.Sort.{sort_with}
use smartclass.Prelude.Text.{Text}
use smartclass.Platform.Errors.{Result, ok, err, internal}
use smartclass.Platform.Exec.{Exec}
use smartclass.Platform.Context.{Ctx, query}

-- A zero time is 0.
pub record DeviceToken : Type 0 where
  pub id : ℕ
  pub user_id : ℕ
  pub token : Text
  pub platform : String
  pub created_at : ℕ
  pub last_seen_at : ℕ

abbrev pub TokenTable : Type 0
TokenTable = Dict (ℕ × Text) DeviceToken

abbrev pub completed : Ctx → DeviceToken → DeviceToken
completed c t = record t {
  id = if t.id == 0 then c.fresh 0 else t.id;
  created_at = if t.created_at == 0 then c.now else t.created_at;
  last_seen_at = c.now;
}

-- INSERT … ON CONFLICT (user_id, token) DO UPDATE SET last_seen_at … RETURNING id, created_at
unfoldable pub save_token : Ctx → DeviceToken → Exec TokenTable DeviceToken
save_token c t table =
    if c.fails "devicetoken.Save" t.user_id
    then (err internal, table)
    else elim (get table (t.user_id, t.token)) [
      | none ↦ (ok (completed c t), put table (t.user_id, t.token) (completed c t))
      | some old ↦
          let seen = record old { last_seen_at = c.now } in
          (
            ok (record (completed c t) { id = old.id; created_at = old.created_at }),
            put table (t.user_id, t.token) seen,
          )
    ]

unfoldable pub delete_by_token : Ctx → ℕ → Text → Exec TokenTable (Unit {0})
delete_by_token c user_id token table =
    if c.fails "devicetoken.DeleteByToken" user_id
    then (err internal, table)
    else (ok tt, remove table (user_id, token))

abbrev pub seen_first : (ℕ × Text) × DeviceToken → (ℕ × Text) × DeviceToken → Bool
seen_first a b = leb b.1.last_seen_at a.1.last_seen_at

unfoldable pub tokens_of_user : Ctx → TokenTable → ℕ → Result (List ((ℕ × Text) × DeviceToken))
tokens_of_user c table user_id =
    query c "devicetoken.ListByUser" user_id
      (ok (sort_with seen_first (keep (λ r. r.1.user_id == user_id) (rows table))))

-- Service.Register
unfoldable pub register_token : Ctx → ℕ → Text → String → Exec TokenTable DeviceToken
unfolding save_token
register_token c user_id token platform = save_token c (record {
  id = 0;
  user_id = user_id;
  token = token;
  platform = platform;
  created_at = 0;
  last_seen_at = 0;
})
