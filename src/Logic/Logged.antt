-- ===== src/Logic/Logged.antt =====
-- What a login with the right password leaves behind, on its way through `LoginRequest`.
use coroutine_server.Prelude.{
  ℕ, ◌%◌, suc, ◌≡◌, refl, sym, ◌∙◌, true, some, List, [], ◌∷◌, Bytes, pos, arith, subst,
}
use coroutine_server.Const.{msg_login_req}
use coroutine_server.Wire.Endian.{ByteOrder}
use coroutine_server.Online.{lookup}
use coroutine_server.Db.{Message, login_user, pending}
use coroutine_server.Db.Messages.{Healthy, get_offline_messages_lem}
use coroutine_server.World.{World, send, set_login_uid, add_online}
use coroutine_server.World.Logins.{send-login_uid, add_online-get}
use coroutine_server.Logic.Monad.{ok, maybe, ◌>>=◌}
use coroutine_server.Logic.Json.{JsonLib}
use coroutine_server.Logic.Replies.{Env, on_db, reply}
use coroutine_server.Logic.Accounts.{
  validate_credentials, close_old, push_offline, login_pull, login_done, login_valid, login_fields,
  login_request,
}
use coroutine_server.Logic.Login.{login_bind_lem}
use coroutine_server.Logic.Keeps.{
  Keeps, bind-ok, state-after, keeps_rules, reply-Keeps, guarded-after,
}
use coroutine_server.Logic.Dispatch.{LogicNode, msg_data, callback, deal}

-- The session is logged in as the uid, the online map names it, and nothing is pending for the uid.
pub record LoggedIn (sid uid : ℕ) (w : World) : Type 0 where
  pub session : (w.sessions sid).login_uid ≡ pos (suc uid)
  pub named : lookup (pos (suc uid)) w.online ≡ some sid
  pub pulled : pending (pos (suc uid)) w.db.messages ≡ []

module _ {Json : Type 0} (lib : JsonLib Json) (order : ByteOrder) (hasher : Bytes → ℕ) (env : Env)
    (sid uid : ℕ) where
  send-LoggedIn :
      (t : ℕ) (msg : Bytes) (id : ℕ) (w : World)
      → LoggedIn sid uid w
      → LoggedIn sid uid (send order t msg id w)
  unfolding send
  send-LoggedIn t msg id w v = record {
    session = ground (arith, v.session, send-login_uid order msg (id % 65536) (w.sessions t));
    named = v.named;
    pulled = v.pulled;
  }

  reply-LoggedIn :
      (t : ℕ) (body : Bytes) (id : ℕ) → Keeps (LoggedIn sid uid) (reply lib order t body id)
  reply-LoggedIn = reply-Keeps lib order (LoggedIn sid uid) send-LoggedIn

  push_offline-LoggedIn :
      (ms : List Message) → Keeps (LoggedIn sid uid) (push_offline lib order hasher env sid ms)
  unfolding push_offline
  push_offline-LoggedIn [] = search keeps_rules
  push_offline-LoggedIn (m ∷ ms) = search (keeps_rules, reply-LoggedIn)

  -- What follows the binding of the session.
  login_pull-LoggedIn :
      (w : World)
      → Healthy (env.outcome 1)
      → (w.sessions sid).login_uid ≡ pos (suc uid)
      → lookup (pos (suc uid)) w.online ≡ some sid
      → LoggedIn sid uid (login_pull lib order hasher env sid (pos (suc uid)) w).1
  unfolding login_pull on_db
  login_pull-LoggedIn w h s o =
      state-after {P = LoggedIn sid uid} _ _ w
        (λ ms. search (keeps_rules, push_offline-LoggedIn, reply-LoggedIn) depth 8)
        (record {
          session = s;
          named = o;
          pulled =
              (get_offline_messages_lem (env.outcome 1) uid (pos (suc uid)) w.db h).1
              ∙ ground arith;
        })

  bound-LoggedIn :
      (w : World)
      → let w' = add_online (pos (suc uid)) sid (set_login_uid sid (pos (suc uid)) w) in
        ((w'.sessions sid).login_uid ≡ pos (suc uid))
        × (lookup (pos (suc uid)) w'.online ≡ some sid)
  bound-LoggedIn w = (
    unfold add_online set_login_uid in ground arith,
    add_online-get (pos (suc uid)) sid (set_login_uid sid (pos (suc uid)) w) (pos (suc uid))
          (omega arith)
        ∙ ground arith,
  )

  login_done-LoggedIn :
      (w : World)
      → Healthy (env.outcome 1)
      → LoggedIn sid uid (login_done lib order hasher env sid (pos (suc uid)) w).1
  login_done-LoggedIn w h =
      unfold login_done in
      let bound = close_old lib order hasher env (pos (suc uid)) w in
      let (s, o) = bound-LoggedIn bound.1 in
      rw
        (bind-ok _ (λ _. login_pull lib order hasher env sid (pos (suc uid))) w _ _
          (login_bind_lem lib order hasher env (pos (suc uid)) (omega arith) sid w))
        (login_pull-LoggedIn _ h s o)

  module _ (d : Bytes) (root : Json) (name password : Bytes) (w : World) where
    -- The request is well formed, its name and password have permitted lengths and are those of the
    -- user `suc uid`.
    pub record Welcome : Type 0 where
      pub parsed : lib.parse d ≡ some root
      pub has_name : lib.contains root "username" ≡ true
      pub has_password : lib.contains root "password" ≡ true
      pub name_is : lib.get_string root "username" ≡ ok name
      pub password_is : lib.get_string root "password" ≡ ok password
      pub valid : validate_credentials name password ≡ true
      pub matches : login_user hasher (env.outcome 0) name password w.db ≡ (true, pos (suc uid))

    pub welcome-done :
        Welcome
        → login_fields lib order hasher env sid root w
          ≡ login_done lib order hasher env sid (pos (suc uid)) w
    unfolding login_fields login_valid ◌>>=◌
    welcome-done s =
        ground (arith, s.has_name, s.has_password, s.name_is, s.password_is, s.valid, s.matches)

    login_request-LoggedIn :
        Welcome
        → Healthy (env.outcome 1)
        → LoggedIn sid uid (login_request lib order hasher env sid d w).1
    unfolding login_request maybe
    login_request-LoggedIn s h =
        guarded-after lib order (LoggedIn sid uid) send-LoggedIn sid _ _ w
          (rw (s.parsed, welcome-done s) (login_done-LoggedIn w h))

module _ {Json : Type 0} (lib : JsonLib Json) (order : ByteOrder) (hasher : Bytes → ℕ)
    (env : Env) where
  pub deal-login :
      (n : LogicNode) (w : World)
      → n.recvnode.msg_id ≡ msg_login_req
      → deal lib order hasher env n w
        ≡ (login_request lib order hasher env n.session (msg_data n.recvnode) w).1
  unfolding deal callback
  deal-login n w e = rw e refl

  -- After a well-formed login request with the name and the password of the user `suc uid`, dealt
  -- while SQLite makes no error, the session is logged in as that user, the online map names it for
  -- the user, and no message is pending for the user.
  pub deal-LoggedIn :
      (n : LogicNode) (uid : ℕ) (root : Json) (name password : Bytes) (w : World)
      → n.recvnode.msg_id ≡ msg_login_req
      → Welcome lib order hasher env n.session uid (msg_data n.recvnode) root name password w
      → Healthy (env.outcome 1)
      → LoggedIn n.session uid (deal lib order hasher env n w)
  deal-LoggedIn n uid root name password w e s h =
      subst (LoggedIn n.session uid) (sym (deal-login n w e)) (
        login_request-LoggedIn lib order hasher env n.session uid (msg_data n.recvnode) root name
          password w s h)
