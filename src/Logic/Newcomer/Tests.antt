-- ===== src/Logic/Newcomer/Tests.antt =====
-- Ann registers, and logs in.
use coroutine_server.Prelude.{◌≡◌, refl, true, [], ◌∷◌, codes, c_str, bytes_eq, length}
use coroutine_server.Const.{msg_register_req, msg_login_req}
use coroutine_server.Wire.Endian.{little_endian}
use coroutine_server.Db.{Db, register_user, find_user, simple_hash}
use coroutine_server.Logic.Accounts.{validate_credentials}
use coroutine_server.Logic.Dispatch.{deal}
use coroutine_server.Logic.Logged.{LoggedIn}
use coroutine_server.Logic.Server.{start}
use coroutine_server.Logic.Tests.{toy, env, message, uuids, credentials, fine-Healthy}
use coroutine_server.Logic.Newcomer.{Names, deal-LoggedIn_newcomer}

credentials-Names : Names toy (codes "C") credentials (codes "ann") (codes "secret")
unfolding bytes_eq validate_credentials
credentials-Names = record {
  parsed = refl;
  has_name = refl;
  has_password = refl;
  name_is = refl;
  password_is = refl;
  valid = refl;
}

abbrev with_ann : Db
with_ann = record (start uuids).db {
  users =
      record {
        uid = 1;
        username = codes "ann";
        password_hash = c_str (simple_hash length (codes "secret"));
      }
      ∷ [];
  next_uid = 2;
}

ann_registers :
    register_user length (env.outcome 0) (codes "ann") (codes "secret") (start uuids).db
    ≡ (true, with_ann)
unfolding register_user find_user c_str start
ann_registers = refl

deal-LoggedIn_newcomer_example : LoggedIn 0 0 (
    deal toy little_endian length env
      (message msg_login_req (codes "C"))
      (deal toy little_endian length env (message msg_register_req (codes "C")) (start uuids)))
unfolding start
deal-LoggedIn_newcomer_example =
    deal-LoggedIn_newcomer toy little_endian length env env (message msg_register_req (codes "C"))
      (message msg_login_req (codes "C")) 0 credentials credentials (codes "ann") (codes "secret")
      (start uuids) with_ann refl credentials-Names ann_registers refl refl credentials-Names
      fine-Healthy fine-Healthy
