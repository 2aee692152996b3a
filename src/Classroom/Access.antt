-- ===== src/Classroom/Access.antt =====
-- Who may read and who may change a classroom: what `Service.authorize` decides.
use smartclass.Prelude.{
  ℕ, Bool, true, false, some, ◌≡◌, refl, ◌↔◌, ◌⊎◌, nat_eq, string_eq, pair_eq, arith,
}
use smartclass.Prelude.Dict.{get}
use smartclass.Platform.Errors.{Result, ok, err, classroom_forbidden}
use smartclass.Platform.Context.{Ctx}
use smartclass.User.{Principal, role_admin}
use smartclass.Classroom.Repository.{Classroom, Db, has_row}
use smartclass.Classroom.Service.{authorize_classroom, authorize}

abbrev pub IsMember : Db → ℕ → ℕ → Type 0
IsMember db classroom_id user_id = has_row (get db.members (classroom_id, user_id)) ≡ true

-- The policy: administrators may do all, the creator may change, the members may read.
abbrev pub IsAllowed : Db → Principal → ℕ → Classroom → Bool → Type 0
IsAllowed db p id cl true = (p.role ≡ role_admin) ⊎ (cl.created_by ≡ p.user_id)
IsAllowed db p id cl false =
    (p.role ≡ role_admin) ⊎ ((cl.created_by ≡ p.user_id) ⊎ IsMember db id p.user_id)

-- The two queries of `authorize` are answered.
pub record Answered (c : Ctx) (id : ℕ) : Type 0 where
  pub finds : c.fails "classroom.GetByID" id ≡ false
  pub asks : c.fails "classroom.IsMember" id ≡ false

module _ (c : Ctx) (db : Db) (p : Principal) (id : ℕ) where
  pub authorize_classroom_sound :
      (mutate : Bool) (cl : Classroom)
      → authorize_classroom c db p id mutate ≡ ok cl
      → (get db.classrooms id ≡ some cl) × IsAllowed db p id cl mutate
  unfolding authorize_classroom
  authorize_classroom_sound true cl h = (
    ground arith,
    ground (arith, string_eq.beq_iff p.role role_admin, nat_eq.beq_iff cl.created_by p.user_id),
  )
  authorize_classroom_sound false cl h = (
    ground arith,
    ground (arith, string_eq.beq_iff p.role role_admin, nat_eq.beq_iff cl.created_by p.user_id),
  )

  pub authorize_classroom_complete :
      (mutate : Bool) (cl : Classroom)
      → Answered c id
      → get db.classrooms id ≡ some cl
      → IsAllowed db p id cl mutate
      → authorize_classroom c db p id mutate ≡ ok cl
  unfolding authorize_classroom
  authorize_classroom_complete true cl a found allowed =
      ground (arith, string_eq.beq_iff p.role role_admin, nat_eq.beq_iff cl.created_by p.user_id)
  authorize_classroom_complete false cl a found allowed =
      ground (arith, string_eq.beq_iff p.role role_admin, nat_eq.beq_iff cl.created_by p.user_id)

  pub authorize_sound :
      (mutate : Bool)
      → authorize c db p id mutate ≡ ok tt
      → (cl : Classroom) × (get db.classrooms id ≡ some cl) × IsAllowed db p id cl mutate
  unfolding authorize
  authorize_sound mutate h = admitted (authorize_classroom c db p id mutate) refl
    where
      admitted :
          (r : Result Classroom)
          → authorize_classroom c db p id mutate ≡ r
          → (cl : Classroom) × (get db.classrooms id ≡ some cl) × IsAllowed db p id cl mutate
      admitted (ok cl) e =
          let (found, allowed) = authorize_classroom_sound mutate cl e in (cl, found, allowed)
      admitted (err x) e = absurd (cc)

  -- When the database answers, `authorize` admits exactly those whom the policy allows, for
  -- reading and for changing, on a classroom that exists.
  pub authorize_iff :
      (mutate : Bool)
      → Answered c id
      → (authorize c db p id mutate ≡ ok tt)
        ↔ ((cl : Classroom) × (get db.classrooms id ≡ some cl) × IsAllowed db p id cl mutate)
  unfolding authorize
  authorize_iff mutate a = (
    authorize_sound mutate,
    λ (cl, found, allowed). rw (authorize_classroom_complete mutate cl a found allowed),
  )

  -- A principal whom the policy does not allow is told that the classroom is forbidden, and only
  -- where the classroom exists; the tables are not consulted further.
  pub authorize_forbidden :
      (mutate : Bool) (cl : Classroom)
      → Answered c id
      → get db.classrooms id ≡ some cl
      → ¬ IsAllowed db p id cl mutate
      → authorize c db p id mutate ≡ err classroom_forbidden
  unfolding authorize authorize_classroom
  authorize_forbidden true cl a found denied =
      ground (arith, string_eq.beq_iff p.role role_admin, nat_eq.beq_iff cl.created_by p.user_id)
  authorize_forbidden false cl a found denied =
      ground (arith, string_eq.beq_iff p.role role_admin, nat_eq.beq_iff cl.created_by p.user_id)
