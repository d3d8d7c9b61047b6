-- ===== src/Logic/Newcomer.antt =====
-- A registration, and the login that follows it, through `RegisterRequest` and `LoginRequest`.
mod Tests
use coroutine_server.Prelude.{ℕ, suc, ◌≡◌, refl, sym, ap, ◌∙◌, true, some, Bytes, pos, arith}
use coroutine_server.Const.{msg_register_req, msg_login_req}
use coroutine_server.Wire.Endian.{ByteOrder}
use coroutine_server.Db.{Db, register_user, login_user}
use coroutine_server.Db.Users.{login_user-register_user}
use coroutine_server.Db.Messages.{Healthy}
use coroutine_server.World.{World}
use coroutine_server.Logic.Monad.{ok, maybe, ◌>>=◌}
use coroutine_server.Logic.Json.{JsonLib}
use coroutine_server.Logic.Replies.{Env, on_db}
use coroutine_server.Logic.Accounts.{
  validate_credentials, register_valid, register_fields, register_request,
}
use coroutine_server.Logic.Keeps.{state-after, keeps_rules, guarded-after}
use coroutine_server.Logic.Chats.{AtDb, send-AtDb, reply-AtDb}
use coroutine_server.Logic.Dispatch.{LogicNode, msg_data, callback, deal}
use coroutine_server.Logic.Logged.{LoggedIn, deal-LoggedIn}

-- The body is a request with this name and password, of permitted lengths.
pub record Names {Json : Type 0} (lib : JsonLib Json) (d : Bytes) (root : Json)
    (name password : Bytes) : Type 0 where
  pub parsed : lib.parse d ≡ some root
  pub has_name : lib.contains root "username" ≡ true
  pub has_password : lib.contains root "password" ≡ true
  pub name_is : lib.get_string root "username" ≡ ok name
  pub password_is : lib.get_string root "password" ≡ ok password
  pub valid : validate_credentials name password ≡ true

module _ {Json : Type 0} (lib : JsonLib Json) (order : ByteOrder) (hasher : Bytes → ℕ)
    (env : Env) where
  register_valid-AtDb :
      (sid : ℕ) (name password : Bytes) (w : World)
      → validate_credentials name password ≡ true
      → AtDb
          (register_user hasher (env.outcome 0) name password w.db).1
          (register_valid lib order hasher env sid name password w).1
  unfolding register_valid on_db
  register_valid-AtDb sid name password w v = rw v (
      state-after {P = AtDb (register_user hasher (env.outcome 0) name password w.db).1} _ _ w
        (λ done. search (keeps_rules, reply-AtDb) depth 8) (record { at = refl }))

  register_fields-valid :
      (sid : ℕ) (d : Bytes) (root : Json) (name password : Bytes) (w : World)
      → Names lib d root name password
      → register_fields lib order hasher env sid root w
        ≡ register_valid lib order hasher env sid name password w
  unfolding register_fields ◌>>=◌
  register_fields-valid sid d root name password w s =
      ground (arith, s.has_name, s.has_password, s.name_is, s.password_is)

  register_request-AtDb :
      (sid : ℕ) (d : Bytes) (root : Json) (name password : Bytes) (w : World)
      → Names lib d root name password
      → AtDb
          (register_user hasher (env.outcome 0) name password w.db).1
          (register_request lib order hasher env sid d w).1
  unfolding register_request maybe
  register_request-AtDb sid d root name password w s =
      guarded-after lib order (AtDb _) (send-AtDb lib order env _) sid _ _ w (
        rw (s.parsed, register_fields-valid sid d root name password w s)
          (register_valid-AtDb sid name password w s.valid))

  deal-register :
      (n : LogicNode) (w : World)
      → n.recvnode.msg_id ≡ msg_register_req
      → deal lib order hasher env n w
        ≡ (register_request lib order hasher env n.session (msg_data n.recvnode) w).1
  unfolding deal callback
  deal-register n w e = rw e refl

module _ {Json : Type 0} (lib : JsonLib Json) (order : ByteOrder) (hasher : Bytes → ℕ) where
  -- If a well-formed registration, dealt while the database accepts it, is followed by a well-formed
  -- login with the same name and password, on any session and dealt while SQLite makes no error, then
  -- that session is logged in with the uid of the new account, the online map names it for that uid,
  -- and no message is pending for it.
  pub deal-LoggedIn_newcomer :
      (env env' : Env) (n n' : LogicNode) (uid : ℕ) (root root' : Json) (name password : Bytes)
      (w : World) (db' : Db)
      → n.recvnode.msg_id ≡ msg_register_req
      → Names lib (msg_data n.recvnode) root name password
      → register_user hasher (env.outcome 0) name password w.db ≡ (true, db')
      → w.db.next_uid ≡ suc uid
      → n'.recvnode.msg_id ≡ msg_login_req
      → Names lib (msg_data n'.recvnode) root' name password
      → Healthy (env'.outcome 0)
      → Healthy (env'.outcome 1)
      → LoggedIn n'.session uid (deal lib order hasher env' n' (deal lib order hasher env n w))
  deal-LoggedIn_newcomer env env' n n' uid root root' name password w db' e s made next e' s' h h' =
      let after =
        ap (λ (v : World). v.db) (deal-register lib order hasher env n w e)
        ∙ (register_request-AtDb lib order hasher env n.session (msg_data n.recvnode) root name
            password w s).at
        ∙ ap (λ r. r.1) made in
      let known =
        ap (λ (db : Db). login_user hasher (env'.outcome 0) name password db) after
        ∙ login_user-register_user hasher (env.outcome 0) (env'.outcome 0) name password w.db db'
            made (h.prepared 0) (h.ran 0)
        ∙ ap (λ m. (true, pos m)) next in
      deal-LoggedIn lib order hasher env' n' uid root' name password (deal lib order hasher env n w)
        e'
        (record {
          parsed = s'.parsed;
          has_name = s'.has_name;
          has_password = s'.has_password;
          name_is = s'.name_is;
          password_is = s'.password_is;
          valid = s'.valid;
          matches = known;
        })
        h'
