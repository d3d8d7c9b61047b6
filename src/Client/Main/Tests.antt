-- ===== src/Client/Main/Tests.antt =====
-- The client's `main` at concrete turns, with a JSON library whose values are texts, the empty one
-- being null.
use coroutine_server.Prelude.{
  ℕ, ◌≡◌, ◌≤◌, ◌<◌, refl, ◌&&◌, Bool, true, false, not, some, List, [], ◌∷◌, Bytes, codes, bytes_eq,
  length, ℤ, pos, arith, subst, blit,
}
use coroutine_server.Const.{
  msg_login_req, msg_login_rsp, msg_get_friend_list_req, msg_offline_msg_rsp,
}
use coroutine_server.Wire.Endian.{little_endian}
use coroutine_server.Wire.Frame.{frame}
use coroutine_server.Reader.{ended, thrown, read_loop}
use coroutine_server.Reader.Transport.{split_input}
use coroutine_server.Reader.Stream.{Message, AllAccepted, nodes}
use coroutine_server.Logic.Monad.{Result, ok, throw}
use coroutine_server.Client.{look, send_msg, send_data, validate_username, validate_password}
use coroutine_server.Client.State.{
  ClientJson, Incoming, lost, arrives, Wake, timed_out, notified, response, is_push, recv_round,
  recv_thread, send_request, wait_for,
}
use coroutine_server.Client.State
use coroutine_server.Client.Commands.{logs_in, command, read_word, credentials}
use coroutine_server.Client.Login.{on_result, on_response, account, print_response}
use coroutine_server.Client.Main.{
  Turn, goes_on, new_client, ask, run_command, attended, main_turn, main_loop,
}
use coroutine_server.Client.Main.Sent.{main_loop-read}
use coroutine_server.Client.Main.Replies.{offline-unanswered}
use coroutine_server.Client.Main.Relogin.{reconnect-logged_out}

abbrev status_of : Bytes → Result ℤ
status_of [] = throw (codes "cannot use value() with null")
status_of (c ∷ s) = ok (pos 0)

abbrev uid_of : Bytes → Result ℤ
uid_of [] = throw (codes "type must be number")
uid_of (c ∷ s) = ok (pos 1)

abbrev is_empty : Bytes → Bool
is_empty [] = true
is_empty (c ∷ s) = false

abbrev text_of : Result Bytes → Bytes
text_of (throw what) = []
text_of (ok json) = json

abbrev toy : ClientJson Bytes
toy = record {
  parse = λ body. some body;
  null = [];
  is_null = is_empty;
  contains = λ json key. not (is_empty json) && bytes_eq json (codes key);
  value_int = λ json key fallback. status_of json;
  get_int64 = λ json key. uid_of json;
  get_int = λ json key. uid_of json;
  get_string = λ json key. ok json;
  elements = λ json key. ok [];
  as_int64 = uid_of;
  dump = λ fields. ok (codes "{}");
  null_text = codes "null";
  null_is_null = refl;
  null_throws = λ key fallback. (codes "cannot use value() with null", refl);
  null_contains = λ key. refl;
  dump_some = λ f json e. subst (λ (r : Result Bytes). 1 ≤ length (text_of r)) e (omega arith);
  null_text_some = omega arith;
}

-- The user types the line; the reply does not come in time.
abbrev types : Bytes → Turn
types line = record {
  line = some line;
  before = arrives 2012 (codes "push") ∷ [];
  last = some lost;
  connects = true;
  writes = true;
  wakes = notified [] ∷ timed_out ∷ [];
}

abbrev asked : State.Client Bytes
asked = record new_client { sent = frame msg_get_friend_list_req (codes "null") }

asked_once : main_loop toy little_endian (types (codes "/friends") ∷ []) new_client ≡ goes_on asked
unfolding main_loop main_turn attended command read_word run_command ask send_request send_msg
    wait_for recv_thread recv_round is_push look on_response on_result print_response bytes_eq
    send_data blit
asked_once = refl

main_loop-read_example :
    (ms : List Message) × AllAccepted ms
    × ((fuel k : ℕ)
        → length ms < fuel
        → read_loop little_endian split_input
            (λ _. false)
            fuel
            k
            (frame msg_get_friend_list_req (codes "null"))
          ≡ (nodes ms, ended thrown))
main_loop-read_example =
    main_loop-read toy little_endian split_input (λ _. false) (types (codes "/friends") ∷ []) asked
      (λ k. refl) asked_once

offline_reply :
    (wait_for toy little_endian msg_offline_msg_rsp (timed_out ∷ []) (
      recv_thread toy little_endian
        (arrives 2014 (codes "messages") ∷ arrives 2014 (codes "failed") ∷ [])
        asked)).0
    ≡ response (codes "failed")
unfolding wait_for recv_thread recv_round is_push look bytes_eq
offline_reply = refl

offline-unanswered_example : toy.contains (codes "failed") "messages" ≡ false
offline-unanswered_example =
    offline-unanswered toy little_endian (types (codes "/friends") ∷ []) asked
      (arrives 2014 (codes "messages") ∷ arrives 2014 (codes "failed") ∷ []) (timed_out ∷ [])
      (codes "failed") asked_once offline_reply

-- The connection is lost after a login.
abbrev gone : State.Client Bytes
gone = record new_client {
  connected = false;
  logged_in = true;
  last_username = codes "ann";
  last_password = codes "secret";
}

reconnect-logged_out_example :
    (c' : State.Client Bytes) × (main_turn toy little_endian (types (codes "/reconnect")) gone
      ≡ goes_on c')
    × (c'.logged_in ≡ false)
    × (c'.receiving ≡ true)
reconnect-logged_out_example =
    reconnect-logged_out toy little_endian (types (codes "/reconnect")) gone refl refl refl refl

typed_login : command (codes "/login ann secret") ≡ logs_in (codes "ann") (codes "secret")
unfolding command read_word credentials bytes_eq validate_username validate_password
typed_login = refl

abbrev login_sent : State.Client Bytes
login_sent = record new_client { sent = frame msg_login_req (codes "{}") }

sent_login :
    send_request toy little_endian true msg_login_req
      (toy.dump (account (codes "ann") (codes "secret")))
      (recv_thread toy little_endian (types (codes "/login ann secret")).before new_client)
    ≡ (true, login_sent)
unfolding send_request send_msg send_data blit recv_thread recv_round is_push
sent_login = refl

late_login :
    (wait_for toy little_endian msg_login_rsp (notified [] ∷ timed_out ∷ []) login_sent).0
    ≡ response toy.null
unfolding wait_for look recv_thread
late_login = refl
