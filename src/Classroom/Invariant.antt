-- ===== src/Classroom/Invariant.antt =====
-- Who may bring a change of the tables about, and what a request that fails leaves of them.
use smartclass.Prelude.{
  ℕ, true, Option, none, some, ◌≡◌, ◌⊎◌, inl, inr, nat_eq, string_eq, pair_eq, Option-cases, arith,
}
use smartclass.Prelude.Dict.{get}
use smartclass.Platform.Errors.{Error, ok, err}
use smartclass.Platform.Context.{Ctx}
use smartclass.User.{Principal, role_admin}
use smartclass.Classroom.Repository.{Classroom, Db}
use smartclass.Classroom.Requests.{Request, create, update, delete, assign, unassign, perform}
use smartclass.Classroom.Access.{IsAllowed}

-- A request that fails, for whatever reason, leaves both tables as they were.
pub perform_error_unchanged :
    (c : Ctx) (p : Principal) (r : Request) (db : Db) (e : Error)
    → (perform c p r db).0 ≡ err e
    → (perform c p r db).1 ≡ db
unfolding perform
perform_error_unchanged c p (create input) db e h = ground arith
perform_error_unchanged c p (update id input) db e h = ground arith
perform_error_unchanged c p (delete id) db e h = ground arith
perform_error_unchanged c p (assign id user_id) db e h = ground arith
perform_error_unchanged c p (unassign id user_id) db e h = ground arith

-- The classroom that a request changes; creating one needs no right.
abbrev pub target : Request → Option ℕ
target (create input) = none
target (update id input) = some id
target (delete id) = some id
target (assign id user_id) = some id
target (unassign id user_id) = some id

-- Only an administrator or the creator of an existing classroom updates it, deletes it, or
-- changes its members.
pub perform_needs_right :
    (c : Ctx) (p : Principal) (r : Request) (db : Db) (id : ℕ)
    → target r ≡ some id
    → (perform c p r db).0 ≡ ok tt
    → (cl : Classroom) × (get db.classrooms id ≡ some cl) × IsAllowed db p id cl true
unfolding perform
perform_needs_right c p r db id t h = elim (Option-cases (get db.classrooms id)) [
  | inl missing ↦ absurd (refused r t h missing)
  | inr (cl, found) ↦ (cl, found, allowed r t h cl found)
]
  where
    refused :
        (r : Request)
        → target r ≡ some id
        → (perform c p r db).0 ≡ ok tt
        → get db.classrooms id ≡ none
        → ⊥
    refused (create input) t h missing = cc
    refused _ t h missing = ground arith

    allowed :
        (r : Request)
        → target r ≡ some id
        → (perform c p r db).0 ≡ ok tt
        → (cl : Classroom) → get db.classrooms id ≡ some cl
        → (p.role ≡ role_admin) ⊎ (cl.created_by ≡ p.user_id)
    allowed (create input) t h cl found = absurd (cc)
    allowed _ t h cl found =
        ground (arith, string_eq.beq_iff p.role role_admin, nat_eq.beq_iff cl.created_by p.user_id)
