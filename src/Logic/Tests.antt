-- ===== src/Logic/Tests.antt =====
-- The server at concrete requests, with a JSON library that knows three of them.
use coroutine_server.Prelude.{
  ℕ, ◌≡◌, refl, Bool, true, false, Option, none, some, List, [], ◌∷◌, ◌++◌, Bytes, codes, bytes_eq,
  c_str, length, ℤ, pos, ◌==ℤ◌, ◌==◌, if◌then◌else◌, arith,
}
use coroutine_server.Const.{msg_register_req, msg_login_req, msg_send_chat_req}
use coroutine_server.Wire.{send_node}
use coroutine_server.Wire.Endian.{little_endian}
use coroutine_server.Session.{new_session}
use coroutine_server.Session
use coroutine_server.Online.{add_online_user, get_session_by_uid}
use coroutine_server.Db.{
  Outcome, pending, register_user, get_offline_messages, login_user, find_user, simple_hash, Db,
}
use coroutine_server.Db.Messages.{Healthy, new_message}
use coroutine_server.World.{World, send, set_login_uid, add_online, get_session}
use coroutine_server.Logic.Monad.{Result, ok, throw, maybe, try_catch, ◌>>=◌}
use coroutine_server.Logic.Json.{Scalar, num, text, JsonLib}
use coroutine_server.Logic.Replies.{Env, on_db, reply, guarded}
use coroutine_server.Logic.Accounts.{
  validate_credentials, register_request, register_fields, register_valid, login_request,
  login_fields, login_valid, login_done, login_bind, close_old, login_pull, push_offline,
}
use coroutine_server.Logic.Dispatch.{LogicNode, callback, deal}
use coroutine_server.Logic.Invariant.{ServerInv}
use coroutine_server.Logic.Server.{
  start, start-ServerInv, deal-ServerInv, deals, Reaches, done, step, reached-exclusive,
}
use coroutine_server.Logic.Guests.{deal-Guest}
use coroutine_server.Logic.Chats.{Sendable, deal-pending}
use coroutine_server.Logic.Logged.{Welcome, LoggedIn, deal-LoggedIn}

-- A parsed request: its keys and their values.
abbrev pub Parsed : Type 0
Parsed = List (Bytes × Scalar)

abbrev entry : Bytes → Parsed → Option Scalar
entry key [] = none
entry key ((k, v) ∷ more) = let rest = entry key more in if bytes_eq k key then some v else rest

abbrev is_entry : Option Scalar → Bool
is_entry none = false
is_entry (some v) = true

abbrev as_text : Option Scalar → Result Bytes
as_text (some (text b)) = ok b
as_text (some (num n)) = throw (codes "type must be string")
as_text none = throw (codes "type must be string")

abbrev as_number : Option Scalar → Result ℤ
as_number (some (num n)) = ok n
as_number (some (text b)) = throw (codes "type must be number")
as_number none = throw (codes "type must be number")

abbrev pub credentials : Parsed
credentials =
    (codes "username", text (codes "ann")) ∷ (codes "password", text (codes "secret")) ∷ []

abbrev pub chat : Parsed
chat = (codes "to_uid", num (pos 2)) ∷ (codes "content", text (codes "hi")) ∷ []

abbrev parse_request : Bytes → Option Parsed
parse_request d =
    if bytes_eq d (codes "C")
    then some credentials
    else if bytes_eq d (codes "M")
    then some chat
    else none

abbrev pub toy : JsonLib Parsed
toy = record {
  parse = parse_request;
  contains = λ root key. is_entry (entry (codes key) root);
  get_string = λ root key. as_text (entry (codes key) root);
  get_int64 = λ root key. as_number (entry (codes key) root);
  get_int = λ root key. as_number (entry (codes key) root);
  set_string = λ root key v. ok ((codes key, text v) ∷ root);
  dump_json = λ root. ok (codes "{}");
  dump = λ fields. ok (codes "{}");
}

abbrev fine : Outcome
fine = record { prepare = λ k. true; runs = λ k. true; fetched = none; arrange = λ xs. xs }

abbrev pub env : Env
env = record { outcome = λ k. fine; timestamp = codes "10:00" }

pub fine-Healthy : Healthy fine
fine-Healthy = record { prepared = λ k. refl; ran = λ k. refl; complete = refl }

-- A message of the session 0.
abbrev pub message : ℕ → Bytes → LogicNode
message id d = record {
  session = 0;
  recvnode = record {
    node = record { bytes = d; cur_len = length d; total_len = length d };
    msg_id = id;
  };
}

abbrev pub uuids : ℕ → Bytes
uuids s = s ∷ []

abbrev pub registered : World
registered = deal toy little_endian length env (message msg_register_req (codes "C")) (start uuids)

abbrev logged_in : World
logged_in = deal toy little_endian length env (message msg_login_req (codes "C")) registered

deal-ServerInv_example : ServerInv registered
deal-ServerInv_example =
    deal-ServerInv toy little_endian length env (message msg_register_req (codes "C")) (start uuids)
      (start-ServerInv toy little_endian length uuids)

deal-Guest_example :
    let w' =
      deal toy little_endian length env (message msg_send_chat_req (codes "M")) (start uuids) in
    (w'.db ≡ (start uuids).db)
    × (w'.online ≡ (start uuids).online)
    × ((w'.sessions 0).login_uid ≡ pos 0)
unfolding start new_session
deal-Guest_example =
    deal-Guest toy little_endian length env (message msg_send_chat_req (codes "M")) (start uuids)
      refl (ground arith) (ground arith)

-- Ann is registered, nobody is logged in.
abbrev pub one_user : World
one_user = record (start uuids) {
  db = record {
    users =
        record {
          uid = 1;
          username = codes "ann";
          password_hash = simple_hash length (codes "secret");
        }
        ∷ [];
    friends = [];
    messages = [];
    next_uid = 2;
    next_msg_id = 1;
  };
}

one_user-Welcome :
    Welcome toy little_endian length env 0 0
      (codes "C")
      credentials
      (codes "ann")
      (codes "secret")
      one_user
unfolding bytes_eq login_user find_user c_str simple_hash validate_credentials
one_user-Welcome = record {
  parsed = refl;
  has_name = refl;
  has_password = refl;
  name_is = refl;
  password_is = refl;
  valid = refl;
  matches = refl;
}

deal-LoggedIn_example :
    LoggedIn 0 0 (deal toy little_endian length env (message msg_login_req (codes "C")) one_user)
deal-LoggedIn_example =
    deal-LoggedIn toy little_endian length env (message msg_login_req (codes "C")) 0 credentials
      (codes "ann") (codes "secret") one_user refl one_user-Welcome fine-Healthy

-- Ann is logged in on the session 0.
abbrev pub ann_online : World
ann_online = record one_user {
  sessions = λ s. record (new_session (uuids s)) { login_uid = if s == 0 then pos 1 else pos 0 };
  online = (pos 1, 0) ∷ [];
}

pub ann_online-Sendable :
    Sendable toy little_endian env 0 (codes "M") chat 1 (codes "hi") ann_online
unfolding bytes_eq new_session
ann_online-Sendable = record {
  parsed = refl;
  has_to = refl;
  has_content = refl;
  to = refl;
  said = refl;
  sender = refl;
  some_text = refl;
  short = omega arith;
}

abbrev pub hi_saved : Db
hi_saved = record one_user.db {
  messages =
      record {
        msg_id = 1;
        from_uid = pos 1;
        to_uid = pos 2;
        content = codes "hi";
        timestamp = codes "10:00";
        delivered = false;
      }
      ∷ [];
  next_msg_id = 2;
}

deal-pending_example :
    pending
      (pos 2)
      (deal toy little_endian length env
        (message msg_send_chat_req (codes "M"))
        ann_online).db.messages
    ≡ pending (pos 2) ann_online.db.messages
      ++ (if pos 2 ==ℤ pos 2
          then new_message (pos 1) (pos 2) (codes "hi") (codes "10:00") ann_online.db ∷ []
          else [])
deal-pending_example =
    deal-pending toy little_endian length env (message msg_send_chat_req (codes "M")) chat 1
      (codes "hi") (pos 2) ann_online refl ann_online-Sendable (omega arith) refl refl

logged_in-open :
    ((logged_in.sessions 0).b_stop ≡ false) × ((logged_in.sessions 0).login_uid ≡ pos 1)
unfolding deal callback register_request register_fields register_valid login_request login_fields
    login_valid login_done login_bind close_old login_pull push_offline validate_credentials guarded
    reply ◌>>=◌ try_catch maybe on_db start new_session register_user login_user
    get_offline_messages find_user simple_hash c_str bytes_eq send Session.send Session.enqueue
    set_login_uid add_online add_online_user get_session get_session_by_uid pending send_node
logged_in-open = (refl, refl)

logged_in-Reaches : Reaches toy little_endian length (start uuids) logged_in
logged_in-Reaches =
    step (step done (deals env (message msg_register_req (codes "C"))))
      (deals env (message msg_login_req (codes "C")))

reached-exclusive_example : let s : ℕ = 0 in s ≡ 0
reached-exclusive_example =
    reached-exclusive toy little_endian length uuids logged_in 0 0 logged_in-Reaches
      logged_in-open.0 logged_in-open.0 (rw logged_in-open.1 (omega arith)) refl
