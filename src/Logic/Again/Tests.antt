-- ===== src/Logic/Again/Tests.antt =====
-- Ann, with a pending message, logs in again on her session.
use coroutine_server.Prelude.{
  ◌≡◌, refl, true, false, some, [], ◌∷◌, codes, c_str, bytes_eq, length, pos, ◌==◌, if◌then◌else◌,
  arith,
}
use coroutine_server.Const.{msg_login_req}
use coroutine_server.Wire.Endian.{little_endian}
use coroutine_server.Session.{new_session}
use coroutine_server.Online.{lookup}
use coroutine_server.Db.{pending, login_user, find_user, simple_hash}
use coroutine_server.World.{World}
use coroutine_server.Logic.Accounts.{validate_credentials}
use coroutine_server.Logic.Dispatch.{deal}
use coroutine_server.Logic.Server.{start}
use coroutine_server.Logic.Invariant.{ServerInv}
use coroutine_server.Logic.Logged.{Welcome}
use coroutine_server.Logic.Tests.{toy, env, message, uuids, one_user, credentials, fine-Healthy}
use coroutine_server.Logic.Again.{deal-again}

abbrev logged_in_once : World
logged_in_once = record one_user {
  sessions = λ s. record (new_session (uuids s)) { login_uid = if s == 0 then pos 1 else pos 0 };
  online = (pos 1, 0) ∷ [];
  db = record one_user.db {
    messages =
        record {
          msg_id = 1;
          from_uid = pos 2;
          to_uid = pos 1;
          content = codes "hi";
          timestamp = codes "10:00";
          delivered = false;
        }
        ∷ [];
    next_msg_id = 2;
  };
}

logged_in_once-Welcome :
    Welcome toy little_endian length env 0 0
      (codes "C")
      credentials
      (codes "ann")
      (codes "secret")
      logged_in_once
unfolding bytes_eq login_user find_user c_str simple_hash validate_credentials
logged_in_once-Welcome = record {
  parsed = refl;
  has_name = refl;
  has_password = refl;
  name_is = refl;
  password_is = refl;
  valid = refl;
  matches = refl;
}

logged_in_once-ServerInv : ServerInv logged_in_once
unfolding start new_session find_user
logged_in_once-ServerInv = record {
  logins = record {
    named = λ s. ground arith;
    signs = λ s. ground arith;
    gone = λ s. ground arith;
  };
  accounts = record { uids = ground arith; names = (refl, tt) };
  messages = record { keys = ground arith; positive = ground arith };
}

deal-again_example :
    let w' = deal toy little_endian length env (message msg_login_req (codes "C")) logged_in_once in
    ((w'.sessions 0).b_stop ≡ true)
    × ((w'.sessions 0).send_que ≡ (logged_in_once.sessions 0).send_que)
    × (lookup (pos 1) w'.online ≡ some 0)
    × (pending (pos 1) w'.db.messages ≡ [])
unfolding new_session
deal-again_example =
    deal-again toy little_endian length env (message msg_login_req (codes "C")) 0 credentials
      (codes "ann") (codes "secret") logged_in_once refl logged_in_once-Welcome fine-Healthy
      logged_in_once-ServerInv refl refl
