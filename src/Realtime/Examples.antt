-- ===== src/Realtime/Examples.antt =====
-- One teacher, one ticket and one classroom's events. The authorizer of these tests lets everybody
-- into classroom 5 only.
use smartclass.Prelude.{
  ℕ, ◌+◌, true, false, some, List, [], ◌∷◌, ◌≡◌, inl, refl, ◌==◌, nat_eq, text_eq, pair_eq,
  string_eq, if◌then◌else◌, Has,
}
use smartclass.Prelude.Dict.{empty, get, put, remove, map_values}
use smartclass.Prelude.Text.{Text, text, trim_space}
use smartclass.Platform.Errors.{ok, err, forbidden, ticket_unknown, ws_ticket_invalid}
use smartclass.Platform.Context.{Ctx}
use smartclass.Platform.Examples.{letters}
use smartclass.User.{role_teacher}
use smartclass.Realtime.Events.{
  Event, classroom_topic, user_topic, strip_prefix, before_colon, classroom_of,
}
use smartclass.Realtime.Tickets
use smartclass.Realtime.Tickets.{Ticket, consume, issue, consume-issue}
use smartclass.Realtime.Topics.{Authorizer, asked, admit, admit_all, authorize_topics}
use smartclass.Realtime.Hub.{Client, new_hub, subscribe, register, publish, is_subscribed}
use smartclass.Realtime.Handler.{Upgrade, Gate, serve, check_origin}
use smartclass.Realtime.Privacy.{Opening}
use smartclass.Realtime.Sessions.{Reach, start, opened, published, received_by_right}

abbrev at : ℕ → Ctx
at now = record { now = now; fresh = λ n. 7 + n; fails = λ op id. false }

abbrev only_five : Authorizer
only_five = some (λ p id mutate. if id == 5 then ok tt else err forbidden)

abbrev devices_topic : Text
devices_topic = classroom_topic letters 5 (text "devices")

abbrev turned_on : Event
turned_on = record {
  version = 1;
  topic = devices_topic;
  type = "device.updated";
  payload = text "{}";
}

abbrev secret : Text
secret = text "secret"

abbrev one_ticket : Tickets.Store
one_ticket =
    put empty secret (record { user_id = 1; role = role_teacher; expires_at = 60; used = false })

abbrev its_ticket : Ticket
its_ticket = record { raw = secret; user_id = 1; role = role_teacher; expires_at = 60 }

abbrev gate : Gate
gate = record { tickets = one_ticket; hub = new_hub }

abbrev knock : Upgrade
knock = record { ticket = secret; topics = devices_topic ∷ []; origin = []; handshake = true }

issued : (issue (at 0) 60 (some secret) 1 role_teacher empty).1 ≡ one_ticket
unfolding issue
issued = refl

redeemed : (consume (at 3) secret one_ticket).0 ≡ ok its_ticket
unfolding consume get put remove empty
redeemed = refl

let_in : (serve letters only_five [] (at 3) knock gate).0 ≡ ok 7
unfolding serve consume authorize_topics admit_all admit get put remove empty check_origin
    strip_prefix before_colon classroom_of register trim_space
let_in = refl

-- A ticket is spent by the first upgrade.
spent_twice :
    (serve letters only_five [] (at 4) knock (serve letters only_five [] (at 3) knock gate).1).0
    ≡ err ws_ticket_invalid
unfolding serve consume authorize_topics admit_all admit get put remove empty check_origin
    strip_prefix before_colon classroom_of register trim_space
spent_twice = refl

abbrev after_event : Gate
after_event =
    let g = (serve letters only_five [] (at 3) knock gate).1 in
    record g { hub = publish turned_on g.hub }

abbrev one_opening : List Opening
one_opening =
    record { id = 7; holder = record { user_id = 1; role = role_teacher }; authz = only_five } ∷ []

one_visit : Reach letters [] after_event one_opening
unfolding serve consume authorize_topics admit_all admit get put remove empty check_origin
    strip_prefix before_colon classroom_of register trim_space
one_visit =
    published turned_on (opened only_five (at 3) knock its_ticket (start one_ticket) refl refl refl)

abbrev listener : Client
listener = record {
  topics = user_topic letters 1 ∷ devices_topic ∷ [];
  queue = turned_on ∷ [];
  closed = false;
}

heard : get after_event.hub.clients 7 ≡ some listener
unfolding serve consume authorize_topics admit_all admit get put remove empty check_origin
    strip_prefix before_colon classroom_of register publish map_values subscribe trim_space
heard = refl

consume-issue_example :
    ((consume (at 3) secret (issue (at 0) 60 (some secret) 1 role_teacher empty).1).0
      ≡ ok (record { raw = secret; user_id = 1; role = role_teacher; expires_at = 60 }))
    × ((consume
          (at 4)
          secret
          (consume (at 3) secret (issue (at 0) 60 (some secret) 1 role_teacher empty).1).1).0
        ≡ err ticket_unknown)
consume-issue_example = consume-issue (at 0) (at 3) (at 4) 60 1 secret role_teacher empty

unheard : is_subscribed (get new_hub.by_topic (devices_topic, 7)) ≡ false
unfolding get empty
unheard = refl

received_by_right_example :
    (o : Opening) × Has o one_opening
    × (o.id ≡ 7)
    × ((room : ℕ) (kind : Text)
        → devices_topic ≡ classroom_topic letters room kind
        → asked o.authz o.holder room ≡ ok tt)
    × ((user_id : ℕ) → devices_topic ≡ user_topic letters user_id → user_id ≡ o.holder.user_id)
received_by_right_example = received_by_right one_visit 7 listener turned_on heard (inl refl)
