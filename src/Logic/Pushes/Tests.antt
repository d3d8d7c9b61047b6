-- ===== src/Logic/Pushes/Tests.antt =====
-- Ann writes to Bob, who is online.
use coroutine_server.Prelude.{
  ℕ, ◌≡◌, ◌≢◌, refl, [], ◌∷◌, codes, c_str, bytes_eq, length, pos, ◌==◌, arith, if◌then◌else◌,
}
use coroutine_server.Const.{msg_send_chat_req, msg_send_chat_rsp, msg_chat_msg_push}
use coroutine_server.Wire.Endian.{little_endian}
use coroutine_server.Session.{new_session}
use coroutine_server.Session.Queue.{send_outcome}
use coroutine_server.Db.{save_message}
use coroutine_server.World.{World}
use coroutine_server.Logic.Dispatch.{deal}
use coroutine_server.Logic.Chats.{Sendable}
use coroutine_server.Logic.Tests.{toy, env, message, uuids, ann_online, hi_saved, chat}
use coroutine_server.Logic.Server.{start}
use coroutine_server.Logic.Pushes.{deal-pushed}

-- Ann is logged in on the session 0, Bob on the session 1.
abbrev both_online : World
both_online = record ann_online {
  sessions = λ s. record (new_session (uuids s)) {
    login_uid = if s == 0 then pos 1 else if s == 1 then pos 2 else pos 0;
  };
  online = (pos 1, 0) ∷ (pos 2, 1) ∷ [];
}

both_online-Sendable : Sendable toy little_endian env 0 (codes "M") chat 1 (codes "hi") both_online
unfolding bytes_eq new_session
both_online-Sendable = record {
  parsed = refl;
  has_to = refl;
  has_content = refl;
  to = refl;
  said = refl;
  sender = refl;
  some_text = refl;
  short = omega arith;
}

save_hi :
    save_message (env.outcome 0) (pos 1) (pos 2) (codes "hi") (codes "10:00") both_online.db
    ≡ (pos 1, hi_saved)
unfolding save_message c_str start
save_hi = refl

deal-pushed_example :
    let w' =
      deal toy little_endian length env (message msg_send_chat_req (codes "M")) both_online in
    (w'.sessions 1 ≡ send_outcome (codes "{}") msg_chat_msg_push (both_online.sessions 1))
    × (w'.sessions 0 ≡ send_outcome (codes "{}") msg_send_chat_rsp (both_online.sessions 0))
    × ((s : ℕ) → s ≢ 1 → s ≢ 0 → w'.sessions s ≡ both_online.sessions s)
unfolding start
deal-pushed_example =
    deal-pushed toy little_endian length env (message msg_send_chat_req (codes "M")) 1 1 1
      (codes "hi") (codes "{}") (codes "{}") chat both_online hi_saved refl both_online-Sendable
      save_hi refl refl (omega arith) refl refl
