-- ===== src/Logic/Pulls/Tests.antt =====
-- Ann pulls one message, with a reply of 3000 bytes.
use coroutine_server.Prelude.{ℕ, ◌≡◌, ◌≢◌, refl, [], ◌∷◌, codes, length, pos, replicate}
use coroutine_server.Const.{msg_offline_msg_req, msg_offline_msg_rsp}
use coroutine_server.Wire.Endian.{little_endian}
use coroutine_server.Session.Queue.{send_outcome}
use coroutine_server.Db.{pending}
use coroutine_server.Db.Messages.{new_message}
use coroutine_server.World.{World}
use coroutine_server.Logic.Monad.{ok}
use coroutine_server.Logic.Json.{JsonLib}
use coroutine_server.Logic.Dispatch.{deal}
use coroutine_server.Logic.Tests.{Parsed, toy, env, message, ann_online, fine-Healthy}
use coroutine_server.Logic.Pulls.{deal-pulled}

abbrev wordy : JsonLib Parsed
wordy = record toy { dump = λ fields. ok (replicate 3000 b'x') }

-- Bob has written to Ann.
abbrev ann_has_mail : World
ann_has_mail = record ann_online {
  db = record ann_online.db {
    messages = new_message (pos 2) (pos 1) (codes "hi") (codes "10:00") ann_online.db ∷ [];
    next_msg_id = 2;
  };
}

deal-pulled_example :
    let w' = deal wordy little_endian length env (message msg_offline_msg_req []) ann_has_mail in
    (w'.sessions 0
      ≡ send_outcome (replicate 3000 b'x') msg_offline_msg_rsp (ann_has_mail.sessions 0))
    × ((s : ℕ) → s ≢ 0 → w'.sessions s ≡ ann_has_mail.sessions s)
    × (pending (pos 1) w'.db.messages ≡ [])
deal-pulled_example =
    deal-pulled wordy little_endian length env (message msg_offline_msg_req []) 0
      (replicate 3000 b'x') ann_has_mail refl refl fine-Healthy refl
