-- ===== src/Realtime/Events.antt =====
-- broker.go of backend/internal/realtime, and the topics that the services publish on.
use smartclass.Prelude.{
  ℕ, String, Option, none, some, [], ◌∷◌, ◌++◌, ◌≡◌, refl, ap, sym, ◌∙◌, false, ◌==◌, nat_eq, All,
  arith, if◌then◌else◌,
}
use smartclass.Prelude.Text.{Text, text, is_nil}
use smartclass.Platform.Uuids.{Uuids, colon}

-- The payload is the JSON that the clients receive.
pub record Event : Type 0 where
  pub version : ℕ
  pub topic : Text
  pub type : String
  pub payload : Text

-- NewEvent
unfoldable pub new_event : Text → String → Text → Event
new_event topic type payload = record { version = 1; topic = topic; type = type; payload = payload }

-- `classroom:<id>:devices`, `classroom:<id>:sensors`, `classroom:<id>:scenes`
abbrev pub classroom_topic : Uuids → ℕ → Text → Text
classroom_topic u id kind = text "classroom:" ++ (u.to_string id ++ colon ∷ kind)

-- `user:<id>:notifications`
abbrev pub user_topic : Uuids → ℕ → Text
user_topic u id = text "user:" ++ (u.to_string id ++ text ":notifications")

-- The rest of a text after a prefix: `strings.HasPrefix(t, p)`, and then `t[len(p):]`
unfoldable pub strip_prefix : Text → Text → Option Text
strip_prefix t [] = some t
strip_prefix [] (p ∷ ps) = none
strip_prefix (c ∷ cs) (p ∷ ps) = let rest = strip_prefix cs ps in if c == p then rest else none

prepend : ℕ → Option Text → Option Text
prepend c none = none
prepend c (some t) = some (c ∷ t)

-- `t[:sep]` where `sep` is the first ':' of `t`
unfoldable pub before_colon : Text → Option Text
unfolding prepend
before_colon [] = none
before_colon (c ∷ cs) = let rest = before_colon cs in if c == colon then some [] else prepend c rest

pub strip_prefix-append : (p t : Text) → strip_prefix (p ++ t) p ≡ some t
unfolding strip_prefix
strip_prefix-append [] t = refl
strip_prefix-append (c ∷ cs) t = ground (arith, strip_prefix-append cs t)

pub before_colon-append :
    (s rest : Text) → All (λ c. c == colon ≡ false) s → before_colon (s ++ colon ∷ rest) ≡ some s
unfolding before_colon
before_colon-append [] rest plain = refl
before_colon-append (c ∷ cs) rest plain = ground (arith, before_colon-append cs rest plain.1)

-- The classroom that a topic names.
unfoldable pub classroom_of : Uuids → Text → Option ℕ
classroom_of u t = elim (strip_prefix t (text "classroom:")) [
  | none ↦ none
  | some rest ↦ elim (before_colon rest) [
    | none ↦ none
    | some id ↦ if is_nil id then none else u.parse id
  ]
]

-- `t[sep:]` for texts with a common beginning
some_inj : {A : Type 0} (a b : A) → some a ≡ some b → a ≡ b
some_inj a b h = ground arith

-- A topic of notifications names one user.
pub user_topic_injective : (u : Uuids) (i j : ℕ) → user_topic u i ≡ user_topic u j → i ≡ j
user_topic_injective u i j same =
    let rest : u.to_string i ++ text ":notifications" ≡ u.to_string j ++ text ":notifications" =
      some_inj _ _ (
        sym (strip_prefix-append (text "user:") (u.to_string i ++ text ":notifications"))
        ∙ ap (λ t. strip_prefix t (text "user:")) same
        ∙ strip_prefix-append (text "user:") (u.to_string j ++ text ":notifications")) in
    let id : u.to_string i ≡ u.to_string j = some_inj _ _ (
      sym (before_colon-append (u.to_string i) (text "notifications") (u.to_string_plain i))
      ∙ ap before_colon rest
      ∙ before_colon-append (u.to_string j) (text "notifications") (u.to_string_plain j)) in
    some_inj _ _ (sym (u.parse-to_string i) ∙ ap u.parse id ∙ u.parse-to_string j)

-- The classroom of a topic on which a service publishes.
pub classroom_of-classroom_topic :
    (u : Uuids) (id : ℕ) (kind : Text) → classroom_of u (classroom_topic u id kind) ≡ some id
unfolding classroom_of
classroom_of-classroom_topic u id kind = ground (
  arith,
  strip_prefix-append (text "classroom:") (u.to_string id ++ colon ∷ kind),
  before_colon-append (u.to_string id) kind (u.to_string_plain id),
  u.to_string_filled id,
  u.parse-to_string id,
)

-- No topic of notifications names a classroom.
pub classroom_of-user_topic : (u : Uuids) (id : ℕ) → classroom_of u (user_topic u id) ≡ none
unfolding classroom_of strip_prefix
classroom_of-user_topic u id = ground arith
