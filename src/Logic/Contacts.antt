-- ===== src/Logic/Contacts.antt =====
-- `GetFriendListRequest`, `AddFriendRequest`, `ChatMessageRequest` and `GetOfflineMessageRequest` of
-- LogicSystem.cpp.
use coroutine_server.Prelude.{
  ℕ, ◌||◌, not, [], ◌∷◌, map, Bytes, codes, ℤ, pos, negsuc, leb_ℤ, ◌==ℤ◌, ltb, if◌then◌else◌,
  length,
}
use coroutine_server.Const.{
  max_message_len, msg_get_friend_list_rsp, msg_add_friend_rsp, msg_friend_request_push,
  msg_send_chat_rsp, msg_chat_msg_push, msg_offline_msg_rsp,
}
use coroutine_server.Wire.Endian.{ByteOrder}
use coroutine_server.Session.{get_login_uid}
use coroutine_server.Db.{is_empty, add_friend, get_friend_list, save_message, get_offline_messages}
use coroutine_server.World.{get_session}
use coroutine_server.Logic.Monad.{Action, pure, lift, gets, state, maybe, ◌>>=◌, ◌>>◌}
use coroutine_server.Logic.Json.{num, text, one, numbers, objects, JsonLib}
use coroutine_server.Logic.Replies.{Env, on_db, message_item, count_of, reply, reply_error, guarded}

module _ {Json : Type 0} (lib : JsonLib Json) (order : ByteOrder) (env : Env) where
  open lib use {parse, contains, get_string, get_int64, dump}

  -- `GetFriendListRequest`
  unfoldable pub list_friends : ℕ → ℤ → Action (Unit {0})
  list_friends sid uid = do
    friends ← gets (λ w. get_friend_list (env.outcome 0) uid w.db)
    out ← lift (
        dump (
          ("status", one (num (pos 0)))
          ∷ ("msg", one (text (codes "ok")))
          ∷ ("friends", numbers friends)
          ∷ []))
    reply lib order sid out msg_get_friend_list_rsp

  unfoldable pub get_friend_list_request : ℕ → Action (Unit {0})
  get_friend_list_request sid = guarded lib order sid msg_get_friend_list_rsp do
    uid ← gets (λ w. get_login_uid (w.sessions sid))
    if uid ==ℤ pos 0
        then reply_error lib order sid (codes "not logged in") msg_get_friend_list_rsp
        else list_friends sid uid

  -- `AddFriendRequest`
  unfoldable pub push_friend : ℤ → ℤ → Action (Unit {0})
  push_friend uid friend_uid = do
    found ← state (get_session friend_uid)
    maybe found (pure tt) λ s. do
      out ← lift (
          dump (
            ("from_uid", one (num uid))
            ∷ ("msg", one (text (codes "you have a new friend request")))
            ∷ []))
      reply lib order s out msg_friend_request_push

  unfoldable pub befriend : ℕ → ℤ → ℤ → Action (Unit {0})
  befriend sid uid friend_uid = do
    done ← state (on_db (add_friend (env.outcome 0) uid friend_uid))
    if done then push_friend uid friend_uid else pure tt
    let status = if done then pos 0 else negsuc 0
    let msg =
        if done
        then codes "friend added"
        else codes "add friend failed (already friends or user not found)"
    out ← lift (dump (("status", one (num status)) ∷ ("msg", one (text msg)) ∷ []))
    reply lib order sid out msg_add_friend_rsp

  unfoldable pub add_friend_from : ℕ → Json → ℤ → Action (Unit {0})
  add_friend_from sid root uid = do
    friend_uid ← lift (get_int64 root "friend_uid")
    if leb_ℤ friend_uid (pos 0)
        then reply_error lib order sid (codes "friend_uid invalid") msg_add_friend_rsp
        else if uid ==ℤ friend_uid
        then reply_error lib order sid (codes "cannot add yourself") msg_add_friend_rsp
        else befriend sid uid friend_uid

  unfoldable pub add_friend_fields : ℕ → Json → Action (Unit {0})
  add_friend_fields sid root =
      if not (contains root "friend_uid")
      then reply_error lib order sid (codes "missing friend_uid") msg_add_friend_rsp
      else do
        uid ← gets (λ w. get_login_uid (w.sessions sid))
        if uid ==ℤ pos 0
            then reply_error lib order sid (codes "not logged in") msg_add_friend_rsp
            else add_friend_from sid root uid

  unfoldable pub add_friend_request : ℕ → Bytes → Action (Unit {0})
  add_friend_request sid msg_data = guarded lib order sid msg_add_friend_rsp (
      maybe (parse msg_data) (reply_error lib order sid (codes "invalid json") msg_add_friend_rsp)
        (add_friend_fields sid))

  -- `ChatMessageRequest`
  unfoldable pub push_chat : ℤ → ℤ → ℤ → Bytes → Action (Unit {0})
  push_chat id from_uid to_uid content = do
    found ← state (get_session to_uid)
    maybe found (pure tt) λ s. do
      out ← lift (
          dump (
            ("msg_id", one (num id))
            ∷ ("from_uid", one (num from_uid))
            ∷ ("to_uid", one (num to_uid))
            ∷ ("content", one (text content))
            ∷ ("timestamp", one (text env.timestamp))
            ∷ []))
      reply lib order s out msg_chat_msg_push

  unfoldable pub deliver : ℕ → ℤ → ℤ → Bytes → Action (Unit {0})
  deliver sid from_uid to_uid content = do
    id ← state (on_db (save_message (env.outcome 0) from_uid to_uid content env.timestamp))
    let saved = leb_ℤ (pos 0) id
    if saved then push_chat id from_uid to_uid content else pure tt
    let status = if saved then pos 0 else negsuc 0
    let msg = if saved then codes "ok" else codes "save failed"
    out ← lift (
        dump
          (("status", one (num status)) ∷ ("msg_id", one (num id)) ∷ ("msg", one (text msg)) ∷ []))
    reply lib order sid out msg_send_chat_rsp

  unfoldable pub chat_checked : ℕ → ℤ → ℤ → Bytes → Action (Unit {0})
  chat_checked sid from_uid to_uid content =
      if leb_ℤ to_uid (pos 0)
      then reply_error lib order sid (codes "invalid to_uid") msg_send_chat_rsp
      else if is_empty content
      then reply_error lib order sid (codes "content empty") msg_send_chat_rsp
      else if ltb max_message_len (length content)
      then reply_error lib order sid (codes "content too long, max 2048 chars") msg_send_chat_rsp
      else deliver sid from_uid to_uid content

  unfoldable pub chat_fields : ℕ → Json → Action (Unit {0})
  chat_fields sid root =
      if not (contains root "to_uid") || not (contains root "content")
      then reply_error lib order sid (codes "missing to_uid or content") msg_send_chat_rsp
      else do
        from_uid ← gets (λ w. get_login_uid (w.sessions sid))
        if from_uid ==ℤ pos 0
            then reply_error lib order sid (codes "sender not logged in") msg_send_chat_rsp
            else do
              to_uid ← lift (get_int64 root "to_uid")
              content ← lift (get_string root "content")
              chat_checked sid from_uid to_uid content

  unfoldable pub chat_message_request : ℕ → Bytes → Action (Unit {0})
  chat_message_request sid msg_data = guarded lib order sid msg_send_chat_rsp (
      maybe (parse msg_data) (reply_error lib order sid (codes "invalid json") msg_send_chat_rsp)
        (chat_fields sid))

  -- `GetOfflineMessageRequest`
  unfoldable pub list_offline : ℕ → ℤ → Action (Unit {0})
  list_offline sid uid = do
    offline ← state (on_db (get_offline_messages (env.outcome 0) uid))
    out ← lift (
        dump (
          ("status", one (num (pos 0)))
          ∷ ("msg", one (text (codes "ok")))
          ∷ ("messages", objects (map message_item offline))
          ∷ ("count", one (num (count_of offline)))
          ∷ []))
    reply lib order sid out msg_offline_msg_rsp

  unfoldable pub get_offline_message_request : ℕ → Action (Unit {0})
  get_offline_message_request sid = guarded lib order sid msg_offline_msg_rsp do
    uid ← gets (λ w. get_login_uid (w.sessions sid))
    if uid ==ℤ pos 0
        then reply_error lib order sid (codes "not logged in") msg_offline_msg_rsp
        else list_offline sid uid
