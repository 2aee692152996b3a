-- ===== src/Notification/Repository.antt =====
-- notification.go and postgres.go of backend/internal/notification, over the table `notifications`
-- (migrations). Metadata are the text that json.Marshal makes of them, `none` where it fails.
use smartclass.Prelude.{
  ℕ, suc, String, Bool, true, false, ◌&&◌, ◌||◌, not, Option, none, some, List, [], ◌∷◌, ◌==◌,
  nat_eq, string_eq, if◌then◌else◌, leb, ltb, keep, length,
}
use smartclass.Prelude.Dict.{Dict, get, put, map_values, rows}
use smartclass.Prelude.Sort.{sort_with, page}
use smartclass.Prelude.Int.{ℤ, pos, negsuc}
use smartclass.Platform.Errors.{Result, ok, err, not_found, internal, ◌>>=◌}
use smartclass.Platform.Exec.{Exec}
use smartclass.Platform.Context.{Ctx, query}

abbrev pub type_info : String
type_info = "info"

abbrev pub type_warning : String
type_warning = "warning"

abbrev pub type_error : String
type_error = "error"

-- Type.Valid
unfoldable pub type_valid : String → Bool
type_valid t = t == type_info || t == type_warning || t == type_error

-- A zero time of creation is 0.
pub record Notification : Type 0 where
  pub id : ℕ
  pub user_id : ℕ
  pub classroom_id : Option ℕ
  pub type : String
  pub title : String
  pub message : String
  pub metadata : Option String
  pub read_at : Option ℕ
  pub created_at : ℕ

abbrev pub Table : Type 0
Table = Dict ℕ Notification

-- `if n.ID == uuid.Nil` and `if n.CreatedAt.IsZero()`
abbrev pub filled : Ctx → ℕ → Notification → Notification
filled c i n = record n {
  id = if n.id == 0 then c.fresh i else n.id;
  created_at = if n.created_at == 0 then c.now else n.created_at;
}

-- The loop of CreateBatch, up to the statement
unfoldable pub prepare : Ctx → ℕ → List Notification → Result (List Notification)
prepare c i [] = ok []
prepare c i (n ∷ ns) = elim n.metadata [
  | none ↦ err internal
  | some json ↦ do rest ← prepare c (suc i) ns; ok (filled c i n ∷ rest)
]

-- INSERT … VALUES of several rows: one that breaks the primary key undoes the others.
unfoldable pub insert_rows : List Notification → Table → Option Table
insert_rows [] t = some t
insert_rows (n ∷ ns) t = elim (get t n.id) [
  | some old ↦ none
  | none ↦ insert_rows ns (put t n.id (record n { read_at = none }))
]

-- The notifications are filled in place.
unfoldable pub create_batch : Ctx → List Notification → Exec Table (List Notification)
create_batch c [] t = (ok [], t)
create_batch c (n ∷ ns) t = elim (prepare c 0 (n ∷ ns)) [
  | err e ↦ (err e, t)
  | ok filled ↦
      if c.fails "notification.CreateBatch" n.user_id
      then (err internal, t)
      else elim (insert_rows filled t) [ none ↦ (err internal, t) | some t' ↦ (ok filled, t') ]
]

abbrev pub is_unread : Notification → Bool
is_unread n = elim n.read_at [ none ↦ true | some r ↦ false ]

abbrev pub newest_first : ℕ × Notification → ℕ × Notification → Bool
newest_first a b = leb b.1.created_at a.1.created_at

-- `if limit <= 0 || limit > 500 { limit = 50 }`
unfoldable pub clamp_limit : ℤ → ℕ
clamp_limit (pos n) = if n == 0 || ltb 500 n then 50 else n
clamp_limit (negsuc n) = 50

-- `if f.Offset > 0`
unfoldable pub clamp_offset : ℤ → ℕ
clamp_offset (pos n) = n
clamp_offset (negsuc n) = 0

abbrev pub listed : ℕ → Bool → ℕ × Notification → Bool
listed user_id only_unread r = r.1.user_id == user_id && (not only_unread || is_unread r.1)

unfoldable pub list_by_user : Ctx → Table → ℕ → Bool → ℤ → ℤ → Result (List (ℕ × Notification))
list_by_user c t user_id only_unread limit offset = query c "notification.List" user_id (
    ok (
      page (clamp_limit limit) (clamp_offset offset)
        (sort_with newest_first (keep (listed user_id only_unread) (rows t)))))

unfoldable pub count_unread : Ctx → Table → ℕ → Result ℕ
count_unread c t user_id =
    query c "notification.CountUnread" user_id (ok (length (keep (listed user_id true) (rows t))))

-- UPDATE … SET read_at=now() WHERE id=$1 AND user_id=$2 AND read_at IS NULL
unfoldable pub mark_read : Ctx → ℕ → ℕ → Exec Table (Unit {0})
mark_read c user_id id t =
    if c.fails "notification.MarkRead" id then (err internal, t) else elim (get t id) [
      | none ↦ (err not_found, t)
      | some n ↦
          if n.user_id == user_id && is_unread n
          then (ok tt, put t id (record n { read_at = some c.now }))
          else (err not_found, t)
    ]

abbrev pub read_by : ℕ → ℕ → ℕ → Notification → Notification
read_by now user_id id n =
    if n.user_id == user_id && is_unread n then record n { read_at = some now } else n

-- UPDATE … SET read_at=now() WHERE user_id=$1 AND read_at IS NULL
unfoldable pub mark_all_read : Ctx → ℕ → Exec Table (Unit {0})
mark_all_read c user_id t =
    if c.fails "notification.MarkAllRead" user_id
    then (err internal, t)
    else (ok tt, map_values (read_by c.now user_id) t)
