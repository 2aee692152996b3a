-- ===== src/Push/Examples.antt =====
-- A user with two phones, one of which Firebase no longer knows.
use smartclass.Prelude.{
  ℕ, ◌+◌, true, false, none, some, [], ◌≡◌, refl, ◌==◌, nat_eq, text_eq, pair_eq, if◌then◌else◌,
}
use smartclass.Prelude.Dict.{empty, get}
use smartclass.Prelude.Text.{Text, text}
use smartclass.Platform.Errors.{ok}
use smartclass.Platform.Context.{Ctx}
use smartclass.Push.Tokens.{DeviceToken, TokenTable, save_token}
use smartclass.Push.Client.{Payload, Firebase, send_push}
use smartclass.Push.Pusher.{IsKeyed, empty-IsKeyed, save_token-IsKeyed, is_invalid, push, push_ok}

abbrev at : ℕ → Ctx
at now = record { now = now; fresh = λ n. n + now; fails = λ op id. false }

abbrev phone : Text → DeviceToken
phone token = record {
  id = 0;
  user_id = 1;
  token = token;
  platform = "ios";
  created_at = 0;
  last_seen_at = 0;
}

abbrev two_phones : TokenTable
two_phones = (save_token (at 2) (phone (text "b")) (save_token (at 1) (phone (text "a")) empty).1).1

keyed : IsKeyed two_phones
keyed =
    save_token-IsKeyed (at 2) (phone (text "b")) (save_token (at 1) (phone (text "a")) empty).1
      (save_token-IsKeyed (at 1) (phone (text "a")) empty empty-IsKeyed)

abbrev hello : Payload
hello = record { title = text "Hello"; body = [] }

-- It answers 404 to the phone "a", and 200 to others.
abbrev firebase : Firebase
firebase = record {
  is_noop = false;
  access_token = ok (text "oauth");
  marshal = λ token p. some token;
  post = λ access body. some (if body == text "a" then (404, []) else (200, []));
}

push_ok_example : get (push firebase (at 3) 1 hello two_phones).1 (1, text "a") ≡ (
    if is_invalid (send_push firebase (text "a") hello) then none else get two_phones (1, text "a"))
push_ok_example = push_ok firebase (at 3) 1 hello two_phones (1, text "a") keyed refl refl

forgotten : is_invalid (send_push firebase (text "a") hello) ≡ true
unfolding send_push
forgotten = refl
