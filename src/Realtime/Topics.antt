-- ===== src/Realtime/Topics.antt =====
-- authorizeTopics of handler.go of backend/internal/realtime/ws: which topics a client is subscribed
-- to. The interface TopicAuthorizer is an argument, `none` where it is nil.
use smartclass.Prelude.{
  ℕ, Bool, true, false, Option, none, some, List, [], ◌∷◌, ◌≡◌, ◌⊎◌, inl, inr, refl, ◌==◌, nat_eq,
  text_eq, All, arith, if◌then◌else◌, Option-cases, sym, subst, ◌∙◌, ap,
}
use smartclass.Prelude.Text.{Text, text, is_nil, trim_space}
use smartclass.Platform.Errors.{Result, ok, err, forbidden, bad_request, Result-cases, ◌>>=◌}
use smartclass.Platform.Uuids.{Uuids}
use smartclass.User.{Principal}
use smartclass.Realtime.Events.{
  user_topic, classroom_topic, strip_prefix, classroom_of, user_topic_injective,
  classroom_of-classroom_topic, classroom_of-user_topic,
}

abbrev pub Authorizer : Type 0
Authorizer = Option (Principal → ℕ → Bool → Result (Unit {0}))

-- h.authz.Authorize(ctx, principal, classroomID, false), any error of which is ErrForbidden
abbrev pub asked : Authorizer → Principal → ℕ → Result (Unit {0})
asked none p id = err forbidden
asked (some authorize) p id = elim (authorize p id false) [ err e ↦ err forbidden | ok u ↦ ok u ]

abbrev has : Option Text → Bool
has none = false
has (some t) = true

-- One requested topic: the topic to subscribe to, `none` where it is skipped.
unfoldable pub admit : Uuids → Authorizer → Principal → Text → Result (Option Text)
admit u authz p raw =
    let t = trim_space raw in
    if is_nil t
    then ok none
    else if t == user_topic u p.user_id
    then ok none
    else if has (strip_prefix t (text "user:"))
    then err forbidden
    else if has (strip_prefix t (text "classroom:"))
    then elim (classroom_of u t) [
      | none ↦ err bad_request
      | some id ↦ elim (asked authz p id) [ err e ↦ err e | ok v ↦ ok (some t) ]
    ]
    else err bad_request

abbrev pub also : Option Text → List Text → List Text
also none ts = ts
also (some t) ts = t ∷ ts

-- The loop: the first topic that is refused ends it.
unfoldable pub admit_all : Uuids → Authorizer → Principal → List Text → Result (List Text)
admit_all u authz p [] = ok []
admit_all u authz p (raw ∷ raws) = do
  t ← admit u authz p raw
  ts ← admit_all u authz p raws
  ok (also t ts)

unfoldable pub authorize_topics : Uuids → Authorizer → Principal → List Text → Result (List Text)
authorize_topics u authz p requested = do
  ts ← admit_all u authz p requested
  ok (user_topic u p.user_id ∷ ts)

-- A topic that the principal may listen to.
abbrev pub IsAdmitted : Uuids → Authorizer → Principal → Text → Type 0
IsAdmitted u authz p t =
    (t ≡ user_topic u p.user_id)
    ⊎ ((id : ℕ) × (classroom_of u t ≡ some id) × (asked authz p id ≡ ok tt))

admit_sound :
    (u : Uuids) (authz : Authorizer) (p : Principal) (raw t : Text)
    → admit u authz p raw ≡ ok (some t)
    → IsAdmitted u authz p t
unfolding admit
admit_sound u authz p raw t h = elim (Option-cases (classroom_of u (trim_space raw))) [
  | inl unnamed ↦ absurd (ground arith)
  | inr (id, named) ↦ elim (Result-cases (asked authz p id)) [
    | inl (v, granted) ↦ inr (id, ground arith, ground arith)
    | inr (e, refused) ↦ absurd (ground arith)
  ]
]

admit_all_sound :
    (u : Uuids) (authz : Authorizer) (p : Principal) (raws ts : List Text)
    → admit_all u authz p raws ≡ ok ts
    → All (IsAdmitted u authz p) ts
unfolding admit_all
admit_all_sound u authz p [] ts h =
    let empty : [] ≡ ts = ground arith in subst (All (IsAdmitted u authz p)) empty tt
admit_all_sound u authz p (raw ∷ raws) ts h = elim (Result-cases (admit u authz p raw)) [
  | inr (e, refused) ↦ absurd (ground arith)
  | inl (t, taken) ↦ elim (Result-cases (admit_all u authz p raws)) [
    | inr (e, refused) ↦ absurd (ground arith)
    | inl (rest, done) ↦
        let all : also t rest ≡ ts = ground arith in
        subst (All (IsAdmitted u authz p)) all (
          also_sound t (λ t' same. admit_sound u authz p raw t' (cc (taken, same))) rest
            (admit_all_sound u authz p raws rest done))
  ]
]
  where
    also_sound :
        (o : Option Text)
        → ((t : Text) → o ≡ some t → IsAdmitted u authz p t)
        → (rest : List Text) → All (IsAdmitted u authz p) rest
        → All (IsAdmitted u authz p) (also o rest)
    also_sound none own rest h = h
    also_sound (some t) own rest h = (own t refl, h)

-- Every topic that the handler subscribes a client to is the client's own, or names a classroom for
-- which the authorizer has let the client in.
pub authorize_topics_sound :
    (u : Uuids) (authz : Authorizer) (p : Principal) (requested ts : List Text)
    → authorize_topics u authz p requested ≡ ok ts
    → All (IsAdmitted u authz p) ts
unfolding authorize_topics
authorize_topics_sound u authz p requested ts h =
    elim (Result-cases (admit_all u authz p requested)) [
      | inr (e, refused) ↦ absurd (ground arith)
      | inl (rest, done) ↦
          let all : user_topic u p.user_id ∷ rest ≡ ts = ground arith in
          subst (All (IsAdmitted u authz p)) all
            (inl refl, admit_all_sound u authz p requested rest done)
    ]

-- What an admitted topic of a service means: that of a classroom was let in by the authorizer, and
-- that of notifications is the client's own.
pub IsAdmitted-classroom_topic :
    (u : Uuids) (authz : Authorizer) (p : Principal) (id : ℕ) (kind : Text)
    → IsAdmitted u authz p (classroom_topic u id kind)
    → asked authz p id ≡ ok tt
IsAdmitted-classroom_topic u authz p id kind (inl own) = absurd (
    cc (
      ap (classroom_of u) own,
      classroom_of-classroom_topic u id kind,
      classroom_of-user_topic u p.user_id,
    ))
IsAdmitted-classroom_topic u authz p id kind (inr (j, named, granted)) =
    let same : some j ≡ some id = sym named ∙ classroom_of-classroom_topic u id kind in
    let at : j ≡ id = ground arith in rw (← at) granted

pub IsAdmitted-user_topic :
    (u : Uuids) (authz : Authorizer) (p : Principal) (j : ℕ)
    → IsAdmitted u authz p (user_topic u j)
    → j ≡ p.user_id
IsAdmitted-user_topic u authz p j (inl own) = user_topic_injective u j p.user_id own
IsAdmitted-user_topic u authz p j (inr (id, named, granted)) =
    absurd (cc (named, classroom_of-user_topic u j))
