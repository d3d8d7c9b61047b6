-- ===== src/Logic/Handlers.antt =====
-- Every handler, on every path, keeps the invariant of the server.
use coroutine_server.Prelude.{
  ℕ, ◌≡◌, refl, ap, Bool, true, false, not, List, [], ◌∷◌, Bytes, ℤ, pos, if◌then◌else◌, ◌<ℤ◌,
}
use coroutine_server.Wire.Endian.{ByteOrder}
use coroutine_server.Db.{
  Db, Message, Outcome, login_user, register_user, get_offline_messages, add_friend, save_message,
}
use coroutine_server.World.{get_session}
use coroutine_server.Logic.Monad.{Action, gets, state, ◌>>=◌}
use coroutine_server.Logic.Json.{JsonLib}
use coroutine_server.Logic.Replies.{Env, on_db, reply, reply_error, guarded}
use coroutine_server.Logic.Accounts.{
  echo, hello_world, register_valid, register_fields, register_request, push_offline, login_bind,
  login_pull, login_done, login_failed, login_valid, login_fields, login_request,
  validate_credentials,
}
use coroutine_server.Logic.Contacts.{
  list_friends, get_friend_list_request, push_friend, befriend, add_friend_from, add_friend_fields,
  add_friend_request, push_chat, deliver, chat_checked, chat_fields, chat_message_request,
  list_offline, get_offline_message_request,
}
use coroutine_server.Logic.Keeps.{
  Keeps, Keeps-state, Keeps-if, Keeps-try_catch, keeps_rules, reply-Keeps, reply_error-Keeps,
  guarded-Keeps,
}
use coroutine_server.Logic.Invariant.{
  ServerInv, send-ServerInv, get_session-ServerInv, KeepsTables, on_db-ServerInv,
  register_user-tables, add_friend-tables, save_message-tables, get_offline_messages-tables,
  login_user-pos,
}
use coroutine_server.Logic.Login.{login_bind-ServerInv}

db_step : {A : Type 0} (f : Db → A × Db) → KeepsTables f → Keeps ServerInv (state (on_db f))
db_step f k = Keeps-state (on_db f) (on_db-ServerInv f k)

module _ {Json : Type 0} (lib : JsonLib Json) (order : ByteOrder) (hasher : Bytes → ℕ)
    (env : Env) where
  reply-Inv : (sid : ℕ) (body : Bytes) (id : ℕ) → Keeps ServerInv (reply lib order sid body id)
  reply-Inv = reply-Keeps lib order ServerInv (send-ServerInv order)

  reply_error-Inv :
      (sid : ℕ) (msg : Bytes) (id : ℕ) → Keeps ServerInv (reply_error lib order sid msg id)
  reply_error-Inv = reply_error-Keeps lib order ServerInv (send-ServerInv order)

  guarded-Inv :
      (sid id : ℕ) (m : Action (Unit {0}))
      → Keeps ServerInv m
      → Keeps ServerInv (guarded lib order sid id m)
  guarded-Inv = guarded-Keeps lib order ServerInv (send-ServerInv order)

  get_session-Inv : (uid : ℤ) → Keeps ServerInv (state (get_session uid))
  get_session-Inv uid = Keeps-state _ (get_session-ServerInv uid)

  -- The calls of the database.
  register_user-Inv :
      (o : Outcome) (name password : Bytes)
      → Keeps ServerInv (state (on_db (register_user hasher o name password)))
  register_user-Inv o name password = db_step _ (register_user-tables hasher o name password)

  get_offline_messages-Inv :
      (o : Outcome) (uid : ℤ) → Keeps ServerInv (state (on_db (get_offline_messages o uid)))
  get_offline_messages-Inv o uid = db_step _ (get_offline_messages-tables o uid)

  add_friend-Inv : (o : Outcome) (a b : ℤ) → Keeps ServerInv (state (on_db (add_friend o a b)))
  add_friend-Inv o a b = db_step _ (add_friend-tables o a b)

  save_message-Inv :
      (o : Outcome) (a b : ℤ) (content timestamp : Bytes)
      → Keeps ServerInv (state (on_db (save_message o a b content timestamp)))
  save_message-Inv o a b content timestamp = db_step _ (save_message-tables o a b content timestamp)

  login_bind-Inv :
      (sid : ℕ) (uid : ℤ) → pos 0 <ℤ uid → Keeps ServerInv (login_bind lib order hasher env sid uid)
  login_bind-Inv sid uid h = record { along = login_bind-ServerInv lib order hasher env uid h sid }

  pub hello_world-Inv :
      (sid : ℕ) (d : Bytes) → Keeps ServerInv (hello_world lib order hasher env sid d)
  unfolding hello_world echo
  hello_world-Inv sid d = search (keeps_rules, reply-Inv, Keeps-try_catch) depth 12

  register_valid-Inv :
      (sid : ℕ) (name password : Bytes)
      → Keeps ServerInv (register_valid lib order hasher env sid name password)
  unfolding register_valid
  register_valid-Inv sid name password =
      search (keeps_rules, reply-Inv, reply_error-Inv, register_user-Inv) depth 8

  register_fields-Inv :
      (sid : ℕ) (root : Json) → Keeps ServerInv (register_fields lib order hasher env sid root)
  register_fields-Inv sid root =
      unfold register_fields in search (keeps_rules, reply_error-Inv, register_valid-Inv) depth 8

  pub register_request-Inv :
      (sid : ℕ) (d : Bytes) → Keeps ServerInv (register_request lib order hasher env sid d)
  unfolding register_request
  register_request-Inv sid d =
      search (keeps_rules, guarded-Inv, reply_error-Inv, register_fields-Inv)

  push_offline-Inv :
      (sid : ℕ) (ms : List Message) → Keeps ServerInv (push_offline lib order hasher env sid ms)
  unfolding push_offline
  push_offline-Inv sid [] = search keeps_rules
  push_offline-Inv sid (m ∷ ms) = search (keeps_rules, reply-Inv)

  login_pull-Inv : (sid : ℕ) (uid : ℤ) → Keeps ServerInv (login_pull lib order hasher env sid uid)
  unfolding login_pull
  login_pull-Inv sid uid =
      search (keeps_rules, get_offline_messages-Inv, push_offline-Inv, reply-Inv) depth 8

  login_done-Inv :
      (sid : ℕ) (uid : ℤ) → pos 0 <ℤ uid → Keeps ServerInv (login_done lib order hasher env sid uid)
  unfolding login_done
  login_done-Inv sid uid h = search (keeps_rules, login_bind-Inv, login_pull-Inv)

  login_failed-Inv : (sid : ℕ) → Keeps ServerInv (login_failed lib order hasher env sid)
  unfolding login_failed
  login_failed-Inv sid = search (keeps_rules, reply-Inv)

  login_outcome-Inv :
      (sid : ℕ) (done : Bool) (uid : ℤ)
      → (done ≡ true → pos 0 <ℤ uid)
      → Keeps ServerInv (
          if done
          then login_done lib order hasher env sid uid
          else login_failed lib order hasher env sid)
  login_outcome-Inv sid true uid h = login_done-Inv sid uid (h refl)
  login_outcome-Inv sid false uid h = login_failed-Inv sid

  login_query-Inv :
      (sid : ℕ) (name password : Bytes)
      → Keeps ServerInv (do
        (done, uid) ← gets (λ w. login_user hasher (env.outcome 0) name password w.db)
        if done
            then login_done lib order hasher env sid uid
            else login_failed lib order hasher env sid)
  unfolding ◌>>=◌
  login_query-Inv sid name password = record {
    along = λ w v.
        let (done, uid) = login_user hasher (env.outcome 0) name password w.db in
        (login_outcome-Inv sid done uid (λ e.
            login_user-pos hasher (env.outcome 0) name password uid w.db v.accounts
              (ap (λ (b : Bool). (b, uid)) e))).along
          w v;
  }

  login_valid-Inv :
      (sid : ℕ) (name password : Bytes)
      → Keeps ServerInv (login_valid lib order hasher env sid name password)
  login_valid-Inv sid name password =
      unfold login_valid in
      Keeps-if (not (validate_credentials name password)) _ _ (reply_error-Inv sid _ _)
        (login_query-Inv sid name password)

  login_fields-Inv :
      (sid : ℕ) (root : Json) → Keeps ServerInv (login_fields lib order hasher env sid root)
  login_fields-Inv sid root =
      unfold login_fields in search (keeps_rules, reply_error-Inv, login_valid-Inv) depth 8

  pub login_request-Inv :
      (sid : ℕ) (d : Bytes) → Keeps ServerInv (login_request lib order hasher env sid d)
  unfolding login_request
  login_request-Inv sid d = search (keeps_rules, guarded-Inv, reply_error-Inv, login_fields-Inv)

  pub get_friend_list_request-Inv :
      (sid : ℕ) → Keeps ServerInv (get_friend_list_request lib order env sid)
  unfolding get_friend_list_request list_friends
  get_friend_list_request-Inv sid =
      search (keeps_rules, guarded-Inv, reply_error-Inv, reply-Inv) depth 12

  push_friend-Inv :
      (uid friend_uid : ℤ) → Keeps ServerInv (push_friend lib order env uid friend_uid)
  unfolding push_friend
  push_friend-Inv uid friend_uid = search (keeps_rules, get_session-Inv, reply-Inv) depth 8

  befriend-Inv :
      (sid : ℕ) (uid friend_uid : ℤ) → Keeps ServerInv (befriend lib order env sid uid friend_uid)
  unfolding befriend
  befriend-Inv sid uid friend_uid =
      search (keeps_rules, add_friend-Inv, push_friend-Inv, reply-Inv) depth 8

  add_friend_from-Inv :
      (sid : ℕ) (root : Json) (uid : ℤ)
      → Keeps ServerInv (add_friend_from lib order env sid root uid)
  unfolding add_friend_from
  add_friend_from-Inv sid root uid = search (keeps_rules, reply_error-Inv, befriend-Inv) depth 8

  pub add_friend_request-Inv :
      (sid : ℕ) (d : Bytes) → Keeps ServerInv (add_friend_request lib order env sid d)
  unfolding add_friend_request add_friend_fields
  add_friend_request-Inv sid d =
      search (keeps_rules, guarded-Inv, reply_error-Inv, add_friend_from-Inv) depth 12

  push_chat-Inv :
      (id from_uid to_uid : ℤ) (content : Bytes)
      → Keeps ServerInv (push_chat lib order env id from_uid to_uid content)
  unfolding push_chat
  push_chat-Inv id from_uid to_uid content =
      search (keeps_rules, get_session-Inv, reply-Inv) depth 8

  deliver-Inv :
      (sid : ℕ) (from_uid to_uid : ℤ) (content : Bytes)
      → Keeps ServerInv (deliver lib order env sid from_uid to_uid content)
  unfolding deliver
  deliver-Inv sid from_uid to_uid content =
      search (keeps_rules, save_message-Inv, push_chat-Inv, reply-Inv) depth 8

  chat_checked-Inv :
      (sid : ℕ) (from_uid to_uid : ℤ) (content : Bytes)
      → Keeps ServerInv (chat_checked lib order env sid from_uid to_uid content)
  unfolding chat_checked
  chat_checked-Inv sid from_uid to_uid content =
      search (keeps_rules, reply_error-Inv, deliver-Inv) depth 8

  pub chat_message_request-Inv :
      (sid : ℕ) (d : Bytes) → Keeps ServerInv (chat_message_request lib order env sid d)
  unfolding chat_message_request chat_fields
  chat_message_request-Inv sid d =
      search (keeps_rules, guarded-Inv, reply_error-Inv, chat_checked-Inv) depth 16

  list_offline-Inv : (sid : ℕ) (uid : ℤ) → Keeps ServerInv (list_offline lib order env sid uid)
  unfolding list_offline
  list_offline-Inv sid uid = search (keeps_rules, get_offline_messages-Inv, reply-Inv) depth 8

  pub get_offline_message_request-Inv :
      (sid : ℕ) → Keeps ServerInv (get_offline_message_request lib order env sid)
  unfolding get_offline_message_request
  get_offline_message_request-Inv sid =
      search (keeps_rules, guarded-Inv, reply_error-Inv, list_offline-Inv) depth 12
