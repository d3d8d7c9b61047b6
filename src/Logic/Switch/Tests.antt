-- ===== src/Logic/Switch/Tests.antt =====
-- Ann logs in on the session of Bob.
use coroutine_server.Prelude.{
  ◌≡◌, refl, false, some, [], ◌∷◌, ◌++◌, codes, c_str, bytes_eq, length, pos, ◌==◌, if◌then◌else◌,
  arith,
}
use coroutine_server.Const.{msg_login_req}
use coroutine_server.Wire.Endian.{little_endian}
use coroutine_server.Session.{new_session}
use coroutine_server.Db.{User, login_user, find_user, simple_hash}
use coroutine_server.World.{World, get_session}
use coroutine_server.Logic.Accounts.{validate_credentials}
use coroutine_server.Logic.Dispatch.{deal}
use coroutine_server.Logic.Server.{start}
use coroutine_server.Logic.Logged.{Welcome}
use coroutine_server.Logic.Tests.{toy, env, message, uuids, one_user, credentials}
use coroutine_server.Logic.Switch.{deal-Switched}

abbrev bob_row : User
bob_row = record { uid = 2; username = codes "bob"; password_hash = simple_hash length (codes "x") }

-- Ann and Bob are registered; Bob is logged in on the session 0.
abbrev bob_online : World
bob_online = record one_user {
  sessions = λ s. record (new_session (uuids s)) { login_uid = if s == 0 then pos 2 else pos 0 };
  online = (pos 2, 0) ∷ [];
  db = record one_user.db { users = one_user.db.users ++ bob_row ∷ []; next_uid = 3 };
}

bob_online-Welcome :
    Welcome toy little_endian length env 0 0
      (codes "C")
      credentials
      (codes "ann")
      (codes "secret")
      bob_online
unfolding bytes_eq login_user find_user c_str simple_hash validate_credentials
bob_online-Welcome = record {
  parsed = refl;
  has_name = refl;
  has_password = refl;
  name_is = refl;
  password_is = refl;
  valid = refl;
  matches = refl;
}

deal-Switched_example :
    let w' = deal toy little_endian length env (message msg_login_req (codes "C")) bob_online in
    ((w'.sessions 0).login_uid ≡ pos 1)
    × ((w'.sessions 0).b_stop ≡ false)
    × ((get_session (pos 2) w').0 ≡ some 0)
unfolding new_session start
deal-Switched_example =
    deal-Switched toy little_endian length env (message msg_login_req (codes "C")) 1 0 credentials
      (codes "ann") (codes "secret") bob_online refl bob_online-Welcome refl refl refl refl
      (omega arith)
