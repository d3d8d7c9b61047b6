-- ===== src/Logic/Accounts.antt =====
-- `HelloWorldCallBack`, `RegisterRequest` and `LoginRequest` of LogicSystem.cpp.
use coroutine_server.Prelude.{
  ℕ, Bool, true, false, ◌||◌, not, List, [], ◌∷◌, ◌++◌, map, Bytes, codes, ℤ, pos, negsuc, ltb,
  if◌then◌else◌, length,
}
use coroutine_server.Const.{
  min_username_len, max_username_len, min_password_len, max_password_len, msg_register_rsp,
  msg_login_rsp, msg_offline_msg_rsp,
}
use coroutine_server.Wire.Endian.{ByteOrder}
use coroutine_server.Db.{Message, is_empty, register_user, login_user, get_offline_messages}
use coroutine_server.World.{close, set_login_uid, add_online, get_session}
use coroutine_server.Logic.Monad.{
  Action, pure, lift, gets, modify, state, maybe, ◌>>=◌, ◌>>◌, try_catch,
}
use coroutine_server.Logic.Json.{num, text, one, objects, JsonLib}
use coroutine_server.Logic.Replies.{
  Env, on_db, short_of_int, message_item, count_of, reply, reply_error, guarded,
}

-- `ValidateCredentials`
unfoldable pub validate_credentials : Bytes → Bytes → Bool
validate_credentials username password =
    if is_empty username || is_empty password
    then false
    else if ltb (length username) min_username_len || ltb max_username_len (length username)
    then false
    else if ltb (length password) min_password_len || ltb max_password_len (length password)
    then false
    else true

module _ {Json : Type 0} (lib : JsonLib Json) (order : ByteOrder) (hasher : Bytes → ℕ)
    (env : Env) where
  open lib use {parse, contains, get_string, get_int, set_string, dump_json, dump}

  -- `HelloWorldCallBack`, whose `catch` only logs.
  unfoldable pub echo : ℕ → Json → Action (Unit {0})
  echo sid root = do
    logged ← lift (get_int root "id")
    said ← lift (get_string root "data")
    root' ← lift (set_string root "data" (codes "server has received msg, msg data is " ++ said))
    out ← lift (dump_json root')
    id ← lift (get_int root' "id")
    reply lib order sid out (short_of_int id)

  unfoldable pub hello_world : ℕ → Bytes → Action (Unit {0})
  hello_world sid msg_data = try_catch (maybe (parse msg_data) (pure tt) (echo sid)) λ _. pure tt

  -- `RegisterRequest`
  unfoldable pub register_valid : ℕ → Bytes → Bytes → Action (Unit {0})
  register_valid sid username password =
      if not (validate_credentials username password)
      then reply_error lib order sid (codes "username 2-32 chars, password 3-64 chars")
          msg_register_rsp
      else do
        done ← state (on_db (register_user hasher (env.outcome 0) username password))
        let status = if done then pos 0 else negsuc 0
        let msg =
            if done then codes "register success" else codes "register failed (username may exist)"
        out ← lift (dump (("status", one (num status)) ∷ ("msg", one (text msg)) ∷ []))
        reply lib order sid out msg_register_rsp

  unfoldable pub register_fields : ℕ → Json → Action (Unit {0})
  register_fields sid root =
      if not (contains root "username") || not (contains root "password")
      then reply_error lib order sid (codes "missing username or password") msg_register_rsp
      else do
        username ← lift (get_string root "username")
        password ← lift (get_string root "password")
        register_valid sid username password

  unfoldable pub register_request : ℕ → Bytes → Action (Unit {0})
  register_request sid msg_data = guarded lib order sid msg_register_rsp (
      maybe (parse msg_data) (reply_error lib order sid (codes "invalid json") msg_register_rsp)
        (register_fields sid))

  -- `LoginRequest`: the old session of the user is closed before the new one is bound.
  unfoldable pub close_old : ℤ → Action (Unit {0})
  close_old uid = do old ← state (get_session uid); maybe old (pure tt) (λ s. modify (close s))

  unfoldable pub login_bind : ℕ → ℤ → Action (Unit {0})
  login_bind sid uid = do close_old uid; modify (set_login_uid sid uid); modify (add_online uid sid)

  -- The push of the offline messages, if there are any.
  unfoldable pub push_offline : ℕ → List Message → Action (Unit {0})
  push_offline sid [] = pure tt
  push_offline sid (m ∷ ms) = do
    out ← lift (
        dump (
          ("status", one (num (pos 0)))
          ∷ ("msg", one (text (codes "offline messages")))
          ∷ ("messages", objects (map message_item (m ∷ ms)))
          ∷ ("count", one (num (count_of (m ∷ ms))))
          ∷ []))
    reply lib order sid out msg_offline_msg_rsp

  -- What follows the binding.
  unfoldable pub login_pull : ℕ → ℤ → Action (Unit {0})
  login_pull sid uid = do
    offline ← state (on_db (get_offline_messages (env.outcome 1) uid))
    push_offline sid offline
    out ← lift (
        dump (
          ("status", one (num (pos 0)))
          ∷ ("uid", one (num uid))
          ∷ ("msg", one (text (codes "login success")))
          ∷ ("offline_count", one (num (count_of offline)))
          ∷ []))
    reply lib order sid out msg_login_rsp

  unfoldable pub login_done : ℕ → ℤ → Action (Unit {0})
  login_done sid uid = do login_bind sid uid; login_pull sid uid

  unfoldable pub login_failed : ℕ → Action (Unit {0})
  login_failed sid = do
    out ← lift (
        dump (
          ("status", one (num (negsuc 0)))
          ∷ ("uid", one (num (pos 0)))
          ∷ ("msg", one (text (codes "login failed (wrong username or password)")))
          ∷ []))
    reply lib order sid out msg_login_rsp

  unfoldable pub login_valid : ℕ → Bytes → Bytes → Action (Unit {0})
  login_valid sid username password =
      if not (validate_credentials username password)
      then reply_error lib order sid (codes "invalid credentials") msg_login_rsp
      else do
        (done, uid) ← gets (λ w. login_user hasher (env.outcome 0) username password w.db)
        if done then login_done sid uid else login_failed sid

  unfoldable pub login_fields : ℕ → Json → Action (Unit {0})
  login_fields sid root =
      if not (contains root "username") || not (contains root "password")
      then reply_error lib order sid (codes "missing username or password") msg_login_rsp
      else do
        username ← lift (get_string root "username")
        password ← lift (get_string root "password")
        login_valid sid username password

  unfoldable pub login_request : ℕ → Bytes → Action (Unit {0})
  login_request sid msg_data = guarded lib order sid msg_login_rsp (
      maybe (parse msg_data) (reply_error lib order sid (codes "invalid json") msg_login_rsp)
        (login_fields sid))
