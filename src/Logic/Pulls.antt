-- ===== src/Logic/Pulls.antt =====
-- What `GetOfflineMessageRequest` does with the pending messages.
mod Tests
use coroutine_server.Prelude.{
  ℕ, suc, ◌≡◌, ◌≢◌, refl, ap, ◌∙◌, sym, some, List, [], ◌∷◌, Bytes, codes, ℤ, pos, ◌==ℤ◌, ==_iff,
  map, if◌then◌else◌, arith,
}
use coroutine_server.Const.{msg_offline_msg_req, msg_offline_msg_rsp}
use coroutine_server.Wire.Endian.{ByteOrder}
use coroutine_server.Session
use coroutine_server.Session.Queue.{send_outcome, send_lem}
use coroutine_server.Db.{Db, Message, pending, get_offline_messages}
use coroutine_server.Db.Messages.{Healthy, get_offline_messages_lem}
use coroutine_server.World.{World, send}
use coroutine_server.Logic.Monad.{Result, ok, ◌>>=◌}
use coroutine_server.Logic.Json.{num, text, one, objects, Fields, JsonLib}
use coroutine_server.Logic.Replies.{Env, on_db, message_item, count_of, reply}
use coroutine_server.Logic.Contacts.{list_offline, get_offline_message_request}
use coroutine_server.Logic.Keeps.{guarded-ok}
use coroutine_server.Logic.Dispatch.{LogicNode, callback, deal}

-- The reply with these messages.
abbrev pub offline_fields : List Message → Fields
offline_fields ms =
    ("status", one (num (pos 0)))
    ∷ ("msg", one (text (codes "ok")))
    ∷ ("messages", objects (map message_item ms))
    ∷ ("count", one (num (count_of ms)))
    ∷ []

module _ {Json : Type 0} (lib : JsonLib Json) (order : ByteOrder) where
  list_offline-ok :
      (env : Env) (sid : ℕ) (uid : ℤ) (out : Bytes) (w : World)
      → let pulled = get_offline_messages (env.outcome 0) uid w.db in
        lib.dump (offline_fields pulled.0) ≡ ok out
        → list_offline lib order env sid uid w
          ≡ (ok tt, send order sid out msg_offline_msg_rsp (record w { db = pulled.1 }))
  unfolding list_offline on_db ◌>>=◌ reply
  list_offline-ok env sid uid out w made = rw (made, ◌>>=◌) refl

  get_offline_message_request-ok :
      (env : Env) (sid uid : ℕ) (out : Bytes) (w : World)
      → let pulled = get_offline_messages (env.outcome 0) (pos (suc uid)) w.db in
        (w.sessions sid).login_uid ≡ pos (suc uid)
        → lib.dump (offline_fields pulled.0) ≡ ok out
        → (get_offline_message_request lib order env sid w).1
          ≡ send order sid out msg_offline_msg_rsp (record w { db = pulled.1 })
  unfolding get_offline_message_request ◌>>=◌
  get_offline_message_request-ok env sid uid out w here made =
      guarded-ok lib order sid msg_offline_msg_rsp _ w _
        (ground (arith, here, list_offline-ok env sid (pos (suc uid)) out w made))

module _ {Json : Type 0} (lib : JsonLib Json) (order : ByteOrder) (hasher : Bytes → ℕ)
    (env : Env) where
  deal-offline :
      (n : LogicNode) (w : World)
      → n.recvnode.msg_id ≡ msg_offline_msg_req
      → deal lib order hasher env n w ≡ (get_offline_message_request lib order env n.session w).1
  unfolding deal callback
  deal-offline n w e = rw e refl

  -- For a session that is logged in, while SQLite makes no error and the text of the reply can be made,
  -- an offline pull puts all the pending messages of the user into one reply. The reply is queued,
  -- as the frame of its first (length mod 65536) bytes, exactly when the session is open, that number
  -- is from 1 to 2048 and at most 1000 messages wait; otherwise it is dropped and the session does not
  -- change. No other session changes, and in either case no message is pending for the user any more.
  pub deal-pulled :
      (n : LogicNode) (uid : ℕ) (out : Bytes) (w : World)
      → n.recvnode.msg_id ≡ msg_offline_msg_req
      → (w.sessions n.session).login_uid ≡ pos (suc uid)
      → Healthy (env.outcome 0)
      → lib.dump (offline_fields (pending (pos (suc uid)) w.db.messages)) ≡ ok out
      → let w' = deal lib order hasher env n w in
        (w'.sessions n.session ≡ send_outcome out msg_offline_msg_rsp (w.sessions n.session))
        × ((s : ℕ) → s ≢ n.session → w'.sessions s ≡ w.sessions s)
        × (pending (pos (suc uid)) w'.db.messages ≡ [])
  unfolding send
  deal-pulled n uid out w e here h made =
      let (rows, left) = get_offline_messages_lem (env.outcome 0) uid (pos (suc uid)) w.db h in
      let result =
        deal-offline n w e
        ∙ get_offline_message_request-ok lib order env n.session uid out w here
            (ap (λ (ms : List Message). lib.dump (offline_fields ms)) rows ∙ made) in
      let sent = send_lem order out msg_offline_msg_rsp (w.sessions n.session) (omega arith) in
      (
        ground (arith, result, sent, ==_iff n.session n.session),
        λ s other. ground (arith, result, ==_iff n.session s),
        ground (arith, result, left),
      )
