-- ===== src/Classroom/Examples.antt =====
-- One school: two classrooms, their creators and a guest teacher.
use smartclass.Prelude.{
  true, false, some, [], ◌≡◌, refl, ◌↔◌, inl, inr, nat_eq, pair_eq, arith, ◌+◌,
}
use package.text.Mathlib.TextEquality.{eq_iff}
use smartclass.Prelude.Dict.{empty, get, put}
use smartclass.Prelude.Text.{text}
use smartclass.Platform.Errors.{ok, err, classroom_forbidden}
use smartclass.Platform.Context.{Ctx}
use smartclass.User.{Principal}
use smartclass.Classroom.Repository.{Classroom, Db}
use smartclass.Classroom.Service.{unassign, authorize}
use smartclass.Classroom.Access.{IsAllowed, Answered, authorize_iff}
use smartclass.Classroom.Requests
use smartclass.Classroom.Requests.{perform}
use smartclass.Classroom.Invariant.{perform_needs_right}
use smartclass.Classroom.Membership.{unassign_revokes}

abbrev calm : Ctx
calm = record { now = 100; fresh = λ n. n + 50; fails = λ op id. false }

abbrev physics : Classroom
physics = record {
  id = 1;
  name = text "Physics";
  description = [];
  created_by = 10;
  created_at = 5;
  updated_at = 5;
}

abbrev school : Db
school = record { classrooms = put empty 1 physics; members = put (put empty (1, 10) 5) (1, 11) 6 }

abbrev owner : Principal
owner = record { user_id = 10; role = "teacher" }

abbrev guest : Principal
guest = record { user_id = 11; role = "teacher" }

abbrev answered : Answered calm 1
answered = record { finds = refl; asks = refl }

physics_found : get school.classrooms 1 ≡ some physics
unfolding get put empty
physics_found = refl

authorize_iff_example :
    (authorize calm school guest 1 false ≡ ok tt)
    ↔ ((cl : Classroom) × (get school.classrooms 1 ≡ some cl) × IsAllowed school guest 1 cl false)
authorize_iff_example = authorize_iff calm school guest 1 false answered

guest_may_not_change : ¬ IsAllowed school guest 1 physics true
guest_may_not_change (inl admin) = ground (arith, eq_iff "teacher" "admin")
guest_may_not_change (inr creator) = omega arith

perform_needs_right_example :
    (cl : Classroom) × (get school.classrooms 1 ≡ some cl) × IsAllowed school owner 1 cl true
unfolding perform get put empty
perform_needs_right_example =
    perform_needs_right calm owner (Requests.assign 1 12) school 1 refl refl

unassign_revokes_example :
    authorize calm (unassign calm owner 1 11 school).1 guest 1 false ≡ err classroom_forbidden
unfolding unassign get put empty
unassign_revokes_example =
    unassign_revokes calm calm owner guest 1 school physics false refl refl (λ e. omega arith)
      (λ e. ground (arith, eq_iff "teacher" "admin")) answered
