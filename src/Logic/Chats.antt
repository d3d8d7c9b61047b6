-- ===== src/Logic/Chats.antt =====
-- What a chat message does to the database, on its way through `ChatMessageRequest`.
use coroutine_server.Prelude.{
  ℕ, suc, ◌≤◌, ◌≡◌, refl, ap, ◌∙◌, true, false, some, [], ◌∷◌, ◌++◌, Bytes, ℤ, pos, ◌==ℤ◌, ◌<ℤ◌,
  if◌then◌else◌, arith, length,
}
use coroutine_server.Const.{msg_send_chat_req}
use coroutine_server.Wire.Endian.{ByteOrder}
use coroutine_server.Db.{Db, is_empty, save_message, pending}
use coroutine_server.Db.Messages.{new_message, save_message-key, pending-save_message}
use coroutine_server.World.{World, send, get_session}
use coroutine_server.Logic.Monad.{ok, state, maybe, ◌>>=◌}
use coroutine_server.Logic.Json.{JsonLib}
use coroutine_server.Logic.Replies.{Env, on_db, reply}
use coroutine_server.Logic.Contacts.{
  push_chat, deliver, chat_checked, chat_fields, chat_message_request,
}
use coroutine_server.Logic.Keeps.{
  Keeps, Keeps-state, state-after, keeps_rules, reply-Keeps, guarded-after,
}
use coroutine_server.Logic.Dispatch.{LogicNode, msg_data, callback, deal}

-- The database is the given one.
pub record AtDb (db : Db) (w : World) : Type 0 where
  pub at : w.db ≡ db

module _ {Json : Type 0} (lib : JsonLib Json) (order : ByteOrder) (env : Env) where
  pub send-AtDb :
      (db : Db) (sid : ℕ) (msg : Bytes) (id : ℕ) (w : World)
      → AtDb db w
      → AtDb db (send order sid msg id w)
  unfolding send
  send-AtDb db sid msg id w v = record { at = v.at }

  pub reply-AtDb :
      (db : Db) (sid : ℕ) (body : Bytes) (id : ℕ) → Keeps (AtDb db) (reply lib order sid body id)
  reply-AtDb db = reply-Keeps lib order (AtDb db) (send-AtDb db)

  get_session-AtDb : (db : Db) (uid : ℤ) → Keeps (AtDb db) (state (get_session uid))
  unfolding get_session
  get_session-AtDb db uid = Keeps-state _ λ w v. record { at = v.at }

  push_chat-AtDb :
      (db : Db) (id a b : ℤ) (content : Bytes)
      → Keeps (AtDb db) (push_chat lib order env id a b content)
  unfolding push_chat
  push_chat-AtDb db id a b content = search (keeps_rules, get_session-AtDb, reply-AtDb) depth 8

  -- Whatever the recipient's session, the push and the replies do, the database is as the insert
  -- left it.
  deliver-AtDb :
      (sid : ℕ) (a b : ℤ) (content : Bytes) (w : World)
      → AtDb
          (save_message (env.outcome 0) a b content env.timestamp w.db).1
          (deliver lib order env sid a b content w).1
  unfolding deliver on_db
  deliver-AtDb sid a b content w =
      state-after {P = AtDb (save_message (env.outcome 0) a b content env.timestamp w.db).1} _ _ w
        (λ id. search (keeps_rules, push_chat-AtDb, reply-AtDb) depth 8) (record { at = refl })

  module _ (sid : ℕ) (d : Bytes) (root : Json) (to_uid : ℕ) (content : Bytes) (w : World) where
    -- The request is well formed, its sender is logged in and its text has 1 to 2048 bytes.
    pub record Sendable : Type 0 where
      pub parsed : lib.parse d ≡ some root
      pub has_to : lib.contains root "to_uid" ≡ true
      pub has_content : lib.contains root "content" ≡ true
      pub to : lib.get_int64 root "to_uid" ≡ ok (pos (suc to_uid))
      pub said : lib.get_string root "content" ≡ ok content
      pub sender : ((w.sessions sid).login_uid ==ℤ pos 0) ≡ false
      pub some_text : is_empty content ≡ false
      pub short : length content ≤ 2048

    pub sendable-deliver :
        Sendable
        → chat_fields lib order env sid root w
          ≡ deliver lib order env sid (w.sessions sid).login_uid (pos (suc to_uid)) content w
    unfolding chat_fields chat_checked ◌>>=◌
    sendable-deliver s =
        ground (arith, s.has_to, s.has_content, s.to, s.said, s.sender, s.some_text, s.short)

    chat_message_request-AtDb :
        Sendable
        → AtDb
            (save_message
              (env.outcome 0)
              (w.sessions sid).login_uid
              (pos (suc to_uid))
              content
              env.timestamp
              w.db).1
            (chat_message_request lib order env sid d w).1
    unfolding chat_message_request maybe
    chat_message_request-AtDb s = guarded-after lib order (AtDb _) (send-AtDb _) sid _ _ w (
        rw (s.parsed, sendable-deliver s)
          (deliver-AtDb sid (w.sessions sid).login_uid (pos (suc to_uid)) content w))

module _ {Json : Type 0} (lib : JsonLib Json) (order : ByteOrder) (hasher : Bytes → ℕ)
    (env : Env) where
  pub deal-chat :
      (n : LogicNode) (w : World)
      → n.recvnode.msg_id ≡ msg_send_chat_req
      → deal lib order hasher env n w
        ≡ (chat_message_request lib order env n.session (msg_data n.recvnode) w).1
  unfolding deal callback
  deal-chat n w e = rw e refl

  -- A well-formed chat message of a session that is logged in, dealt while SQLite prepares and runs the
  -- insert without an error, becomes the last of its recipient's pending messages, whether the
  -- recipient is online or not, and registered or not; the pending messages of every other uid are as
  -- before.
  pub deal-pending :
      (n : LogicNode) (root : Json) (to_uid : ℕ) (content : Bytes) (uid : ℤ) (w : World)
      → n.recvnode.msg_id ≡ msg_send_chat_req
      → Sendable lib order env n.session (msg_data n.recvnode) root to_uid content w
      → pos 0 <ℤ (w.sessions n.session).login_uid
      → (env.outcome 0).prepare 0 ≡ true
      → (env.outcome 0).runs 0 ≡ true
      → pending uid (deal lib order hasher env n w).db.messages
        ≡ pending uid w.db.messages
          ++ (if pos (suc to_uid) ==ℤ uid
              then new_message
                  (w.sessions n.session).login_uid
                  (pos (suc to_uid))
                  content
                  env.timestamp
                  w.db
                ∷ []
              else [])
  deal-pending n root to_uid content uid w e s user prepared ran =
      let from = (w.sessions n.session).login_uid in
      let db' =
        (save_message (env.outcome 0) from (pos (suc to_uid)) content env.timestamp w.db).1 in
      let after =
        (chat_message_request-AtDb lib order env n.session (msg_data n.recvnode) root to_uid content
          w s).at in
      let (key, grown) =
        pending-save_message (env.outcome 0) from (pos (suc to_uid)) uid content env.timestamp w.db
          db' w.db.next_msg_id
          (save_message-key (env.outcome 0) from to_uid content env.timestamp w.db user s.some_text
            prepared ran) in
      ap (λ (v : World). pending uid v.db.messages) (deal-chat n w e)
      ∙ ap (λ (db : Db). pending uid db.messages) after
      ∙ grown
