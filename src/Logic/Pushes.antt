-- ===== src/Logic/Pushes.antt =====
-- What `ChatMessageRequest` sends: the push to a recipient who is online and the response to the
-- sender.
mod Tests
use coroutine_server.Prelude.{
  ℕ, suc, ◌≡◌, ◌≢◌, refl, ap, ◌∙◌, sym, false, some, List, [], ◌∷◌, Bytes, codes, ℤ, pos, ◌==ℤ◌,
  ==_iff, if◌then◌else◌, arith,
}
use coroutine_server.Const.{msg_send_chat_req, msg_send_chat_rsp, msg_chat_msg_push}
use coroutine_server.Wire.Endian.{ByteOrder}
use coroutine_server.Session
use coroutine_server.Session.Queue.{send_outcome, send_lem}
use coroutine_server.Online.{lookup, get_session_by_uid}
use coroutine_server.Db.{Db, save_message}
use coroutine_server.World.{World, send, get_session}
use coroutine_server.Logic.Monad.{ok, maybe, ◌>>=◌}
use coroutine_server.Logic.Json.{num, text, one, Fields, JsonLib}
use coroutine_server.Logic.Replies.{Env, on_db, reply}
use coroutine_server.Logic.Contacts.{push_chat, deliver, chat_message_request}
use coroutine_server.Logic.Keeps.{guarded-ok}
use coroutine_server.Logic.Dispatch.{LogicNode, msg_data, deal}
use coroutine_server.Logic.Chats.{Sendable, sendable-deliver, deal-chat}

-- The push to the recipient and the response to the sender.
abbrev pub push_fields : ℕ → ℤ → ℤ → Bytes → Bytes → Fields
push_fields id from_uid to_uid content timestamp =
    ("msg_id", one (num (pos id)))
    ∷ ("from_uid", one (num from_uid))
    ∷ ("to_uid", one (num to_uid))
    ∷ ("content", one (text content))
    ∷ ("timestamp", one (text timestamp))
    ∷ []

abbrev pub saved_fields : ℕ → Fields
saved_fields id =
    ("status", one (num (pos 0)))
    ∷ ("msg_id", one (num (pos id)))
    ∷ ("msg", one (text (codes "ok")))
    ∷ []

module _ {Json : Type 0} (lib : JsonLib Json) (order : ByteOrder) (env : Env) where
  push_chat-ok :
      (id to_uid t : ℕ) (from_uid : ℤ) (content out : Bytes) (w : World)
      → lookup (pos (suc to_uid)) w.online ≡ some t
      → w.expired t ≡ false
      → lib.dump (push_fields id from_uid (pos (suc to_uid)) content env.timestamp) ≡ ok out
      → push_chat lib order env (pos id) from_uid (pos (suc to_uid)) content w
        ≡ (ok tt, send order t out msg_chat_msg_push w)
  unfolding push_chat get_session get_session_by_uid maybe ◌>>=◌ reply
  push_chat-ok id to_uid t from_uid content out w online alive made =
      ground (arith, online, alive, made)

  deliver-ok :
      (sid id to_uid t : ℕ) (from_uid : ℤ) (content out back : Bytes) (w : World) (db' : Db)
      → save_message (env.outcome 0) from_uid (pos (suc to_uid)) content env.timestamp w.db
        ≡ (pos id, db')
      → lookup (pos (suc to_uid)) w.online ≡ some t
      → w.expired t ≡ false
      → lib.dump (push_fields id from_uid (pos (suc to_uid)) content env.timestamp) ≡ ok out
      → lib.dump (saved_fields id) ≡ ok back
      → deliver lib order env sid from_uid (pos (suc to_uid)) content w ≡ (
        ok tt,
        send order sid back msg_send_chat_rsp
            (send order t out msg_chat_msg_push (record w { db = db' })),
      )
  unfolding deliver on_db ◌>>=◌ reply
  deliver-ok sid id to_uid t from_uid content out back w db' saved online alive made answered =
      let pushed =
        push_chat-ok id to_uid t from_uid content out (record w { db = db' }) online alive made in
      ground (arith, saved, pushed, answered)

  chat_message_request-ok :
      (sid id to_uid t : ℕ) (d content out back : Bytes) (root : Json) (w : World) (db' : Db)
      → Sendable lib order env sid d root to_uid content w
      → save_message
          (env.outcome 0)
          (w.sessions sid).login_uid
          (pos (suc to_uid))
          content
          env.timestamp
          w.db
        ≡ (pos id, db')
      → lookup (pos (suc to_uid)) w.online ≡ some t
      → w.expired t ≡ false
      → lib.dump
          (push_fields id (w.sessions sid).login_uid (pos (suc to_uid)) content env.timestamp)
        ≡ ok out
      → lib.dump (saved_fields id) ≡ ok back
      → (chat_message_request lib order env sid d w).1
        ≡ send order sid back msg_send_chat_rsp
            (send order t out msg_chat_msg_push (record w { db = db' }))
  unfolding chat_message_request maybe
  chat_message_request-ok sid id to_uid t d content out back root w db' s saved online alive made
        answered =
      guarded-ok lib order sid msg_send_chat_rsp _ w _ (
        rw (s.parsed, sendable-deliver lib order env sid d root to_uid content w s)
          (deliver-ok sid id to_uid t (w.sessions sid).login_uid content out back w db' saved online
            alive made answered))

module _ {Json : Type 0} (lib : JsonLib Json) (order : ByteOrder) (hasher : Bytes → ℕ)
    (env : Env) where
  -- A well-formed chat message of a session that is logged in, dealt while SQLite inserts the row
  -- without an error and the texts can be made, to a recipient whom the online map names with another
  -- session that is alive: that session is sent the push, the sender's the response, each queued
  -- or dropped by the rules of Send, and no other session changes.
  pub deal-pushed :
      (n : LogicNode) (id to_uid t : ℕ) (content out back : Bytes) (root : Json) (w : World)
      (db' : Db)
      → n.recvnode.msg_id ≡ msg_send_chat_req
      → Sendable lib order env n.session (msg_data n.recvnode) root to_uid content w
      → save_message
          (env.outcome 0)
          (w.sessions n.session).login_uid
          (pos (suc to_uid))
          content
          env.timestamp
          w.db
        ≡ (pos id, db')
      → lookup (pos (suc to_uid)) w.online ≡ some t
      → w.expired t ≡ false
      → t ≢ n.session
      → lib.dump
          (push_fields id (w.sessions n.session).login_uid (pos (suc to_uid)) content env.timestamp)
        ≡ ok out
      → lib.dump (saved_fields id) ≡ ok back
      → let w' = deal lib order hasher env n w in
        (w'.sessions t ≡ send_outcome out msg_chat_msg_push (w.sessions t))
        × (w'.sessions n.session ≡ send_outcome back msg_send_chat_rsp (w.sessions n.session))
        × ((s : ℕ) → s ≢ t → s ≢ n.session → w'.sessions s ≡ w.sessions s)
  unfolding send
  deal-pushed n id to_uid t content out back root w db' e s saved online alive other made answered =
      let result =
        deal-chat lib order hasher env n w e
        ∙ chat_message_request-ok lib order env n.session id to_uid t (msg_data n.recvnode) content
            out back root w db' s saved online alive made answered in
      let pushed = send_lem order out msg_chat_msg_push (w.sessions t) (omega arith) in
      let replied = send_lem order back msg_send_chat_rsp (w.sessions n.session) (omega arith) in
      (
        ground (arith, result, pushed, other, ==_iff t t, ==_iff n.session t),
        ground (arith, result, replied, other, ==_iff n.session n.session, ==_iff t n.session),
        λ x not_t not_sid. ground (arith, result, ==_iff n.session x, ==_iff t x),
      )
