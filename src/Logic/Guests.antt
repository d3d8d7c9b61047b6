-- ===== src/Logic/Guests.antt =====
-- What a session that is not logged in can do.
use coroutine_server.Prelude.{
  ℕ, ◌%◌, ◌≡◌, refl, false, Bytes, ℤ, pos, ◌==ℤ◌, ◌==◌, ◌≢◌, if◌then◌else◌, arith,
}
use coroutine_server.Wire.Endian.{ByteOrder}
use coroutine_server.Session.{get_login_uid}
use coroutine_server.Online.{Online}
use coroutine_server.Db.{Db}
use coroutine_server.World.{World, send}
use coroutine_server.World.Logins.{send-login_uid}
use coroutine_server.Logic.Monad.{Action, gets, ◌>>=◌}
use coroutine_server.Logic.Json.{JsonLib}
use coroutine_server.Logic.Replies.{Env, reply, reply_error, guarded}
use coroutine_server.Const.{msg_register_req, msg_login_req}
use coroutine_server.Logic.Callbacks.{Kept, if-Kept, skip-Kept, some-Kept, none-Kept, deal-Kept}
use coroutine_server.Logic.Accounts.{echo, hello_world}
use coroutine_server.Logic.Contacts.{
  get_friend_list_request, add_friend_fields, add_friend_request, chat_fields, chat_message_request,
  get_offline_message_request,
}
use coroutine_server.Logic.Keeps.{
  Keeps, keeps_rules, Keeps-try_catch, reply-Keeps, reply_error-Keeps, guarded-Keeps,
}
use coroutine_server.Logic.Dispatch.{LogicNode, deal, callback}

-- The session `sid` is not logged in; the database and the online map are the given ones.
record Guest (sid : ℕ) (db : Db) (online : Online) (w : World) : Type 0 where
  guest : (w.sessions sid).login_uid ≡ pos 0
  same_db : w.db ≡ db
  same_online : w.online ≡ online

module _ {Json : Type 0} (lib : JsonLib Json) (order : ByteOrder) (env : Env) (sid : ℕ) (db : Db)
    (online : Online) where
  send-Guest :
      (t : ℕ) (msg : Bytes) (id : ℕ) (w : World)
      → Guest sid db online w
      → Guest sid db online (send order t msg id w)
  unfolding send
  send-Guest t msg id w v = record {
    guest = ground (arith, v.guest, send-login_uid order msg (id % 65536) (w.sessions t));
    same_db = v.same_db;
    same_online = v.same_online;
  }

  error-Guest :
      (t : ℕ) (msg : Bytes) (id : ℕ) → Keeps (Guest sid db online) (reply_error lib order t msg id)
  error-Guest = reply_error-Keeps lib order (Guest sid db online) send-Guest

  catch-Guest :
      (t id : ℕ) (m : Action (Unit {0}))
      → Keeps (Guest sid db online) m
      → Keeps (Guest sid db online) (guarded lib order t id m)
  catch-Guest = guarded-Keeps lib order (Guest sid db online) send-Guest

  -- The check of the login: a guest is denied, whatever the handler would do next.
  gate-Guest :
      (deny : Action (Unit {0})) (allow : ℤ → Action (Unit {0}))
      → Keeps (Guest sid db online) deny
      → Keeps (Guest sid db online) (do
        uid ← gets (λ w. get_login_uid (w.sessions sid))
        if uid ==ℤ pos 0 then deny else allow uid)
  unfolding ◌>>=◌ gets
  gate-Guest deny allow k = record { along = λ w v. denied w v }
    where
      denied :
          (w : World)
          → Guest sid db online w
          → Guest sid db online
              ((if (w.sessions sid).login_uid ==ℤ pos 0
                  then deny
                  else allow (w.sessions sid).login_uid)
                w).1
      denied w v = rw v.guest (k.along w v)

  send_reply-Guest :
      (t : ℕ) (body : Bytes) (id : ℕ) → Keeps (Guest sid db online) (reply lib order t body id)
  send_reply-Guest = reply-Keeps lib order (Guest sid db online) send-Guest

  hello_world-Guest :
      (hasher : Bytes → ℕ) (d : Bytes)
      → Keeps (Guest sid db online) (hello_world lib order hasher env sid d)
  unfolding hello_world echo
  hello_world-Guest hasher d = search (keeps_rules, send_reply-Guest, Keeps-try_catch) depth 12

  get_friend_list_request-Guest :
      Keeps (Guest sid db online) (get_friend_list_request lib order env sid)
  unfolding get_friend_list_request
  get_friend_list_request-Guest = search (catch-Guest, gate-Guest, error-Guest) depth 8

  get_offline_message_request-Guest :
      Keeps (Guest sid db online) (get_offline_message_request lib order env sid)
  unfolding get_offline_message_request
  get_offline_message_request-Guest = search (catch-Guest, gate-Guest, error-Guest) depth 8

  add_friend_fields-Guest :
      (root : Json) → Keeps (Guest sid db online) (add_friend_fields lib order env sid root)
  unfolding add_friend_fields
  add_friend_fields-Guest root = search (keeps_rules, gate-Guest, error-Guest) depth 8

  add_friend_request-Guest :
      (d : Bytes) → Keeps (Guest sid db online) (add_friend_request lib order env sid d)
  unfolding add_friend_request
  add_friend_request-Guest d =
      search (keeps_rules, catch-Guest, error-Guest, add_friend_fields-Guest) depth 8

  chat_fields-Guest :
      (root : Json) → Keeps (Guest sid db online) (chat_fields lib order env sid root)
  unfolding chat_fields
  chat_fields-Guest root = search (keeps_rules, gate-Guest, error-Guest) depth 8

  chat_message_request-Guest :
      (d : Bytes) → Keeps (Guest sid db online) (chat_message_request lib order env sid d)
  unfolding chat_message_request
  chat_message_request-Guest d =
      search (keeps_rules, catch-Guest, error-Guest, chat_fields-Guest) depth 8

  callback-Guest :
      (hasher : Bytes → ℕ) (id : ℕ)
      → (id == msg_register_req) ≡ false
      → (id == msg_login_req) ≡ false
      → Kept (Guest sid db online) sid (callback lib order hasher env id)
  unfolding callback
  callback-Guest hasher id r l = if-Kept _ _ _ (some-Kept _ (hello_world-Guest hasher)) (
      skip-Kept _ _ _ r (
        skip-Kept _ _ _ l (
          search
            (
              if-Kept, some-Kept, none-Kept, get_friend_list_request-Guest,
              add_friend_request-Guest, chat_message_request-Guest,
              get_offline_message_request-Guest,
            )
            depth 16)))

-- A message from a session that is not logged in, unless it is a registration or a login, changes
-- neither the database nor the online map, and the session stays logged out.
pub deal-Guest :
    {Json : Type 0} (lib : JsonLib Json) (order : ByteOrder) (hasher : Bytes → ℕ) (env : Env)
    (n : LogicNode) (w : World)
    → (w.sessions n.session).login_uid ≡ pos 0
    → n.recvnode.msg_id ≢ msg_register_req
    → n.recvnode.msg_id ≢ msg_login_req
    → let w' = deal lib order hasher env n w in
      (w'.db ≡ w.db) × (w'.online ≡ w.online) × ((w'.sessions n.session).login_uid ≡ pos 0)
deal-Guest lib order hasher env n w g r l =
    let kept =
      deal-Kept lib order hasher env (Guest n.session w.db w.online) n w
        (callback-Guest lib order env n.session w.db w.online hasher n.recvnode.msg_id
          (ground (arith, r)) (ground (arith, l)))
        (record { guest = g; same_db = refl; same_online = refl }) in
    (kept.same_db, kept.same_online, kept.guest)
