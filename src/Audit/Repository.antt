-- ===== src/Audit/Repository.antt =====
-- record.go, repository.go and postgres.go of backend/internal/auditlog, over the table `action_logs`
-- (migrations), whose rows are kept in the order of their insertion. Metadata are the text that
-- json.Marshal makes of them, `none` where it fails.
use smartclass.Prelude.{
  ℕ, ◌+◌, String, Bool, true, false, ◌&&◌, ◌||◌, Option, none, some, List, [], ◌∷◌, ◌++◌, ◌==◌,
  nat_eq, string_eq, if◌then◌else◌, leb, ltb, keep,
}
use smartclass.Prelude.Sort.{sort_with, page}
use smartclass.Prelude.Int.{ℤ, pos, negsuc}
use smartclass.Platform.Errors.{Result, ok, err, internal, ◌>>=◌}
use smartclass.Platform.Exec.{Exec}
use smartclass.Platform.Context.{Ctx, query}

-- A zero time of creation is 0.
pub record Entry : Type 0 where
  pub actor_id : Option ℕ
  pub entity_type : String
  pub entity_id : Option ℕ
  pub action : String
  pub metadata : Option String
  pub created_at : ℕ

pub record Row : Type 0 where
  pub id : ℕ
  pub entry : Entry

pub record Table : Type 0 where
  pub next_id : ℕ  -- of the sequence
  pub entries : List Row

abbrev pub dated : Ctx → Entry → Entry
dated c e = record e { created_at = if e.created_at == 0 then c.now else e.created_at }

-- buildInsertArgs
unfoldable pub build_insert_args : Ctx → List Entry → Result (List Entry)
build_insert_args c [] = ok []
build_insert_args c (e ∷ es) = elim e.metadata [
  | none ↦ err internal
  | some json ↦ do rest ← build_insert_args c es; ok (dated c e ∷ rest)
]

unfoldable pub append_rows : List Entry → Table → Table
append_rows [] t = t
append_rows (e ∷ es) t = append_rows es (record {
  next_id = t.next_id + 1;
  entries = t.entries ++ record { id = t.next_id; entry = e } ∷ [];
})

unfoldable pub insert : Ctx → List Entry → Exec Table (Unit {0})
insert c [] t = (ok tt, t)
insert c (e ∷ es) t = elim (build_insert_args c (e ∷ es)) [
  | err x ↦ (err x, t)
  | ok args ↦ if c.fails "auditlog.Insert" 0 then (err internal, t) else (ok tt, append_rows args t)
]

pub record Query : Type 0 where
  pub actor_id : Option ℕ
  pub entity_type : String
  pub entity_id : Option ℕ
  pub action : String
  pub from : Option ℕ
  pub to : Option ℕ
  pub limit : ℤ
  pub offset : ℤ

-- actor_id=$1, where SQL's NULL is equal to nothing
abbrev equals : ℕ → Option ℕ → Bool
equals n none = false
equals n (some k) = n == k

abbrev given : Option ℕ → (ℕ → Bool) → Bool
given none p = true
given (some n) p = p n

-- WHERE
unfoldable pub matches : Query → Entry → Bool
matches q e =
    given q.actor_id (λ n. equals n e.actor_id)
    && (q.entity_type == "" || e.entity_type == q.entity_type)
    && given q.entity_id (λ n. equals n e.entity_id)
    && (q.action == "" || e.action == q.action)
    && given q.from (λ t. leb t e.created_at)
    && given q.to (λ t. leb e.created_at t)

abbrev pub newest_first : Row → Row → Bool
newest_first a b = leb b.entry.created_at a.entry.created_at

-- `if limit <= 0 || limit > 1000 { limit = 100 }`
unfoldable pub clamp_limit : ℤ → ℕ
clamp_limit (pos n) = if n == 0 || ltb 1000 n then 100 else n
clamp_limit (negsuc n) = 100

unfoldable pub clamp_offset : ℤ → ℕ
clamp_offset (pos n) = n
clamp_offset (negsuc n) = 0

unfoldable pub list_entries : Ctx → Table → Query → Result (List Row)
list_entries c t q = query c "auditlog.List" 0 (
    ok (
      page (clamp_limit q.limit) (clamp_offset q.offset)
        (sort_with newest_first (keep (λ (r : Row). matches q r.entry) t.entries))))
