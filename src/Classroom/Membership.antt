-- ===== src/Classroom/Membership.antt =====
-- What creating, assigning and unassigning mean for later requests, and what a listing shows.
use smartclass.Prelude.{
  ℕ, ◌≤◌, Bool, true, false, some, List, ◌≡◌, sym, ◌∙◌, ◌≢◌, inl, inr, nat_eq, string_eq, pair_eq,
  arith, ◌==◌, ◌&&◌, if◌then◌else◌, Has, Has-keep, keep, length, Bool-cases,
}
use smartclass.Prelude.Int.{ℤ, pos, negsuc}
use smartclass.Prelude.Dict.{get, get-put, get-remove, rows, Has-rows}
use smartclass.Prelude.Sort
use smartclass.Prelude.Sort.{sort_with, Has-page, Has-sort_with, length-take}
use mathlib.Core.Path.{subst}
use smartclass.Platform.Errors.{ok, err, classroom_forbidden}
use smartclass.Platform.Context.{Ctx}
use smartclass.User.{Principal, role_admin}
use smartclass.Classroom.Repository.{Classroom, Db, has_row, newest_first, list_all, list_for_user}
use smartclass.Classroom.Service.{
  CreateInput, create, assign, unassign, authorize, clamp_limit, clamp_offset, list_for_principal,
}
use smartclass.Classroom.Access.{IsMember, IsAllowed, Answered, authorize_iff, authorize_forbidden}

-- A successful assignment makes the user a member, and changes no other membership.
pub member-assign :
    (c : Ctx) (p : Principal) (id user_id : ℕ) (db : Db)
    → (assign c p id user_id db).0 ≡ ok tt
    → (k u : ℕ)
    → has_row (get (assign c p id user_id db).1.members (k, u))
      ≡ (if id == k && user_id == u then true else has_row (get db.members (k, u)))
unfolding assign
member-assign c p id user_id db h k u = grind (arith, get-put)

pub member-unassign :
    (c : Ctx) (p : Principal) (id user_id : ℕ) (db : Db)
    → (unassign c p id user_id db).0 ≡ ok tt
    → (k u : ℕ)
    → has_row (get (unassign c p id user_id db).1.members (k, u))
      ≡ (if id == k && user_id == u then false else has_row (get db.members (k, u)))
unfolding unassign
member-unassign c p id user_id db h k u = grind (arith, get-remove)

classrooms-unassign :
    (c : Ctx) (p : Principal) (id user_id : ℕ) (db : Db)
    → (unassign c p id user_id db).1.classrooms ≡ db.classrooms
unfolding unassign
classrooms-unassign c p id user_id db = ground arith

-- After a member is unassigned, `authorize` admits them no more, unless they created the
-- classroom or are an administrator.
pub unassign_revokes :
    (c c' : Ctx) (p q : Principal) (id : ℕ) (db : Db) (cl : Classroom) (mutate : Bool)
    → (unassign c p id q.user_id db).0 ≡ ok tt
    → get db.classrooms id ≡ some cl
    → cl.created_by ≢ q.user_id
    → q.role ≢ role_admin
    → Answered c' id
    → authorize c' (unassign c p id q.user_id db).1 q id mutate ≡ err classroom_forbidden
unassign_revokes c c' p q id db cl mutate h found other plain a =
    authorize_forbidden c' (unassign c p id q.user_id db).1 q id mutate cl a
      (rw classrooms-unassign found) (denied mutate)
  where
    denied : (m : Bool) → ¬ IsAllowed (unassign c p id q.user_id db).1 q id cl m
    denied true (inl e) = plain e
    denied true (inr e) = other e
    denied false (inl e) = plain e
    denied false (inr (inl e)) = other e
    denied false (inr (inr e)) = ground (arith, member-unassign c p id q.user_id db h id q.user_id)

-- What `create` stores is what it returns.
create_stores :
    (c : Ctx) (input : CreateInput) (db : Db) (cl : Classroom)
    → (create c input db).0 ≡ ok cl
    → (get (create c input db).1.classrooms cl.id ≡ some cl)
      × (cl.created_by ≡ input.created_by)
      × IsMember (create c input db).1 cl.id input.created_by
unfolding create
create_stores c input db cl h = (grind (arith, get-put), grind arith, grind (arith, get-put))

-- Whoever creates a classroom may change it and read it from then on, and is its member.
pub create_allows_creator :
    (c c' : Ctx) (input : CreateInput) (q : Principal) (db : Db) (cl : Classroom) (mutate : Bool)
    → (create c input db).0 ≡ ok cl
    → q.user_id ≡ input.created_by
    → Answered c' cl.id
    → (authorize c' (create c input db).1 q cl.id mutate ≡ ok tt)
      × IsMember (create c input db).1 cl.id q.user_id
create_allows_creator c c' input q db cl mutate h e a =
    let (found, by, member) = create_stores c input db cl h in
    (
      (authorize_iff c' (create c input db).1 q cl.id mutate a).1
          (cl, found, creator mutate (by ∙ sym e)),
      rw e member,
    )
  where
    creator : (m : Bool) → cl.created_by ≡ q.user_id → IsAllowed (create c input db).1 q cl.id cl m
    creator true o = inr o
    creator false o = inr (inl o)

clamp_limit_bounds : (limit : ℤ) → (1 ≤ clamp_limit limit) × (clamp_limit limit ≤ 200)
unfolding clamp_limit
clamp_limit_bounds (pos n) = ground arith
clamp_limit_bounds (negsuc n) = ground arith

list_all_rows :
    (c : Ctx) (db : Db) (n k : ℕ) (page : List (ℕ × Classroom)) (id : ℕ) (cl : Classroom)
    → list_all c db n k ≡ ok page
    → Has (id, cl) page
    → (length page ≤ n) × (get db.classrooms id ≡ some cl)
unfolding list_all
list_all_rows c db n k page id cl h m =
    let sorted = sort_with newest_first (rows db.classrooms) in
    let shown : page ≡ Sort.page n k sorted = ground arith in
    let kept = Has-page (id, cl) n k sorted (subst (Has (id, cl)) shown m) in
    (
      rw shown (length-take n (Sort.drop k sorted)),
      (Has-rows db.classrooms id cl).0
          ((Has-sort_with newest_first (id, cl) (rows db.classrooms)).0 kept),
    )

list_for_user_rows :
    (c : Ctx) (db : Db) (u n k : ℕ) (page : List (ℕ × Classroom)) (id : ℕ) (cl : Classroom)
    → list_for_user c db u n k ≡ ok page
    → Has (id, cl) page
    → (length page ≤ n) × (get db.classrooms id ≡ some cl) × IsMember db id u
unfolding list_for_user
list_for_user_rows c db u n k page id cl h m =
    let mine = λ (r : ℕ × Classroom). has_row (get db.members (r.0, u)) in
    let joined = keep mine (rows db.classrooms) in
    let sorted = sort_with newest_first joined in
    let shown : page ≡ Sort.page n k sorted = ground arith in
    let kept = Has-page (id, cl) n k sorted (subst (Has (id, cl)) shown m) in
    let both =
      (Has-keep mine (id, cl) (rows db.classrooms)).0
        ((Has-sort_with newest_first (id, cl) joined).0 kept) in
    (rw shown (length-take n (Sort.drop k sorted)), (Has-rows db.classrooms id cl).0 both.0, both.1)

-- A page of classrooms holds at most 200, and each that it shows is stored and one that the
-- principal may read, for every limit and offset, negative ones included.
pub list_for_principal_readable :
    (c : Ctx) (db : Db) (p : Principal) (limit offset : ℤ) (page : List (ℕ × Classroom))
    → (id : ℕ) (cl : Classroom) → list_for_principal c db p limit offset ≡ ok page
    → Has (id, cl) page
    → (length page ≤ 200) × (get db.classrooms id ≡ some cl) × IsAllowed db p id cl false
unfolding list_for_principal
list_for_principal_readable c db p limit offset page id cl h m =
    elim (Bool-cases (p.role == role_admin)) [
      | inl admin ↦
          let (few, stored) =
            list_all_rows c db (clamp_limit limit) (clamp_offset offset) page id cl (rw admin at h)
              m in
          (
            omega (arith, clamp_limit_bounds limit),
            stored,
            inl ((string_eq.beq_iff p.role role_admin).0 admin),
          )
      | inr plain ↦
          let (few, stored, member) =
            list_for_user_rows c db p.user_id (clamp_limit limit) (clamp_offset offset) page id cl
              (rw plain at h) m in
          (omega (arith, clamp_limit_bounds limit), stored, inr (inr member))
    ]
