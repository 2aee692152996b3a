-- ===== src/Notification/Delivery.antt =====
-- Who is told when a notification goes to a classroom (CreateForClassroom of
-- backend/internal/notification/service.go).
use smartclass.Prelude.{
  ℕ, none, some, List, [], ◌∷◌, ◌≡◌, refl, nat_eq, string_eq, pair_eq, arith, Option-cases, inl,
  inr,
}
use smartclass.Prelude.Dict.{get}
use smartclass.Platform.Errors.{Error, err, Result-cases}
use smartclass.Platform.Context.{Ctx}
use smartclass.Classroom.Repository.{Db, members_of}
use smartclass.Notification.Repository
use smartclass.Notification.Repository.{
  Notification, type_valid, prepare, insert_rows, create_batch,
}
use smartclass.Notification.Service.{Input, Outbox, Setup, addressed, create_for_classroom}

-- What every notification of the batch says.
abbrev pub IsOf : ℕ → Input → Notification → Type 0
IsOf classroom_id input n =
    (n.classroom_id ≡ some classroom_id)
    × (n.type ≡ input.type)
    × (n.title ≡ input.title)
    × (n.message ≡ input.message)
    × (n.read_at ≡ none)

abbrev pub IsUnreadIn : Repository.Table → Notification → Type 0
IsUnreadIn t n = get t n.id ≡ some (record n { read_at = none })

create_batch_failed :
    (c : Ctx) (ns : List Notification) (t : Repository.Table) (e : Error)
    → (create_batch c ns t).0 ≡ err e
    → (create_batch c ns t).1 ≡ t
unfolding create_batch
create_batch_failed c [] t e h = refl
create_batch_failed c (n ∷ ns) t e h = elim (Result-cases (prepare c 0 (n ∷ ns))) [
  | inr (x, failed) ↦ ground arith
  | inl (done, good) ↦ elim (Option-cases (insert_rows done t)) [
    | inl taken ↦ ground arith
    | inr (t', stored) ↦ ground arith
  ]
]

-- When CreateForClassroom fails, nothing is stored and nobody is told.
pub create_for_classroom_failed :
    (s : Setup) (c : Ctx) (db : Db) (classroom_id : ℕ) (input : Input) (o : Outbox) (e : Error)
    → (create_for_classroom s c db classroom_id input o).0 ≡ err e
    → (create_for_classroom s c db classroom_id input o).1 ≡ o
unfolding create_for_classroom
create_for_classroom_failed s c db classroom_id input o e h =
    elim (Result-cases (members_of c db classroom_id)) [
      | inr (x, failed) ↦ ground arith
      | inl (uids, found) ↦
          elim (Result-cases (create_batch c (addressed c 0 classroom_id input uids) o.inbox).0) [
            | inl (ms, done) ↦ ground arith
            | inr (x, failed) ↦ ground (
              arith,
              create_batch_failed c (addressed c 0 classroom_id input uids) o.inbox x failed,
            )
          ]
    ]
