-- ===== src/Logic/Switch.antt =====
-- A login as another user on a connection on which a user is logged in: the entry of the first user
-- stays in the online map.
mod Tests
use coroutine_server.Prelude.{
  ℕ, ◌%◌, suc, ◌≡◌, ◌≢◌, refl, sym, ap, ◌∙◌, false, none, some, List, [], ◌∷◌, Bytes, ℤ, pos, ◌==ℤ◌,
  ==ℤ_iff, arith, subst,
}
use coroutine_server.Const.{msg_login_req}
use coroutine_server.Wire.Endian.{ByteOrder}
use coroutine_server.Online.{lookup, get_session_by_uid}
use coroutine_server.Db.{Message}
use coroutine_server.World.{World, send, set_login_uid, add_online, get_session}
use coroutine_server.World.Logins.{send-login_uid, send-b_stop, add_online-get}
use coroutine_server.Logic.Monad.{ok, maybe, ◌>>=◌}
use coroutine_server.Logic.Json.{JsonLib}
use coroutine_server.Logic.Replies.{Env, on_db, reply}
use coroutine_server.Logic.Accounts.{close_old, push_offline, login_pull, login_done, login_request}
use coroutine_server.Logic.Login.{login_bind_lem}
use coroutine_server.Logic.Keeps.{
  Keeps, bind-ok, state-after, keeps_rules, reply-Keeps, guarded-after,
}
use coroutine_server.Logic.Dispatch.{LogicNode, msg_data, deal}
use coroutine_server.Logic.Logged.{Welcome, welcome-done, deal-login}

-- The session is open and logged in as `b`, and the online map names it for `a`.
pub record Switched (sid : ℕ) (a b : ℤ) (w : World) : Type 0 where
  pub running : (w.sessions sid).b_stop ≡ false
  pub alive : w.expired sid ≡ false
  pub user : (w.sessions sid).login_uid ≡ b
  pub stale : lookup a w.online ≡ some sid

module _ {Json : Type 0} (lib : JsonLib Json) (order : ByteOrder) (hasher : Bytes → ℕ) (env : Env)
    (sid : ℕ) (a b : ℤ) where
  send-Switched :
      (t : ℕ) (msg : Bytes) (id : ℕ) (w : World)
      → Switched sid a b w
      → Switched sid a b (send order t msg id w)
  unfolding send
  send-Switched t msg id w v = record {
    running = ground (arith, v.running, send-b_stop order msg (id % 65536) (w.sessions t));
    alive = v.alive;
    user = ground (arith, v.user, send-login_uid order msg (id % 65536) (w.sessions t));
    stale = v.stale;
  }

  reply-Switched :
      (t : ℕ) (body : Bytes) (id : ℕ) → Keeps (Switched sid a b) (reply lib order t body id)
  reply-Switched = reply-Keeps lib order (Switched sid a b) send-Switched

  push_offline-Switched :
      (ms : List Message) → Keeps (Switched sid a b) (push_offline lib order hasher env sid ms)
  unfolding push_offline
  push_offline-Switched [] = search keeps_rules
  push_offline-Switched (m ∷ ms) = search (keeps_rules, reply-Switched)

  login_pull-Switched :
      (w : World)
      → Switched sid a b w
      → Switched sid a b (login_pull lib order hasher env sid b w).1
  unfolding login_pull on_db
  login_pull-Switched w v =
      state-after {P = Switched sid a b} _ _ w
        (λ ms. search (keeps_rules, push_offline-Switched, reply-Switched) depth 8)
        (record { running = v.running; alive = v.alive; user = v.user; stale = v.stale })

module _ {Json : Type 0} (lib : JsonLib Json) (order : ByteOrder) (hasher : Bytes → ℕ) (env : Env)
    (sid a b : ℕ) where
  -- The new user has no session that could be closed.
  close_old-nobody :
      (w : World)
      → lookup (pos (suc b)) w.online ≡ none
      → (close_old lib order hasher env (pos (suc b)) w).1 ≡ w
  unfolding close_old get_session get_session_by_uid maybe ◌>>=◌
  close_old-nobody w off = ground (arith, off)

  bound-Switched :
      (w : World)
      → (w.sessions sid).b_stop ≡ false
      → w.expired sid ≡ false
      → lookup (pos (suc a)) w.online ≡ some sid
      → a ≢ b
      → Switched sid
          (pos (suc a))
          (pos (suc b))
          (add_online (pos (suc b)) sid (set_login_uid sid (pos (suc b)) w))
  bound-Switched w on alive named other = record {
    running = unfold add_online set_login_uid in ground (arith, on);
    alive = unfold add_online set_login_uid in alive;
    user = unfold add_online set_login_uid in ground arith;
    stale =
        unfold set_login_uid in
        ground (
          arith,
          named,
          other,
          add_online-get (pos (suc b)) sid (set_login_uid sid (pos (suc b)) w) (pos (suc a))
              (omega arith),
        );
  }

  login_done-Switched :
      (w : World)
      → (w.sessions sid).b_stop ≡ false
      → w.expired sid ≡ false
      → lookup (pos (suc a)) w.online ≡ some sid
      → lookup (pos (suc b)) w.online ≡ none
      → a ≢ b
      → Switched sid
          (pos (suc a))
          (pos (suc b))
          (login_done lib order hasher env sid (pos (suc b)) w).1
  unfolding login_done
  login_done-Switched w on alive named off other =
      rw
        (bind-ok _ (λ _. login_pull lib order hasher env sid (pos (suc b))) w _ _
          (login_bind_lem lib order hasher env (pos (suc b)) (omega arith) sid w))
        (login_pull-Switched lib order hasher env sid (pos (suc a)) (pos (suc b)) _ (
          subst
            (λ (x : World).
              Switched sid (pos (suc a)) (pos (suc b))
                (add_online (pos (suc b)) sid (set_login_uid sid (pos (suc b)) x)))
            (sym (close_old-nobody w off)) (bound-Switched w on alive named other)))

  login_request-Switched :
      (d : Bytes) (root : Json) (name password : Bytes) (w : World)
      → Welcome lib order hasher env sid b d root name password w
      → (w.sessions sid).b_stop ≡ false
      → w.expired sid ≡ false
      → lookup (pos (suc a)) w.online ≡ some sid
      → lookup (pos (suc b)) w.online ≡ none
      → a ≢ b
      → Switched sid (pos (suc a)) (pos (suc b)) (login_request lib order hasher env sid d w).1
  unfolding login_request maybe
  login_request-Switched d root name password w s on alive named off other =
      guarded-after lib order (Switched sid (pos (suc a)) (pos (suc b)))
        (send-Switched lib order hasher env sid (pos (suc a)) (pos (suc b))) sid _ _ w
        (rw (s.parsed, welcome-done lib order hasher env sid b d root name password w s)
          (login_done-Switched w on alive named off other))

module _ {Json : Type 0} (lib : JsonLib Json) (order : ByteOrder) (hasher : Bytes → ℕ)
    (env : Env) where
  -- If a user logs in, with the right password, on an open session that the online map names for
  -- another user, while the new user has no entry in the map, then the map goes on to name the
  -- session for the other user too, although it is logged in as the new one: who sends a message to the
  -- other user finds this session.
  pub deal-Switched :
      (n : LogicNode) (a b : ℕ) (root : Json) (name password : Bytes) (w : World)
      → n.recvnode.msg_id ≡ msg_login_req
      → Welcome lib order hasher env n.session b (msg_data n.recvnode) root name password w
      → (w.sessions n.session).b_stop ≡ false
      → w.expired n.session ≡ false
      → lookup (pos (suc a)) w.online ≡ some n.session
      → lookup (pos (suc b)) w.online ≡ none
      → a ≢ b
      → let w' = deal lib order hasher env n w in
        ((w'.sessions n.session).login_uid ≡ pos (suc b))
        × ((w'.sessions n.session).b_stop ≡ false)
        × ((get_session (pos (suc a)) w').0 ≡ some n.session)
  unfolding get_session get_session_by_uid
  deal-Switched n a b root name password w e s on alive named off other =
      let v =
        subst (Switched n.session (pos (suc a)) (pos (suc b)))
          (sym (deal-login lib order hasher env n w e))
          (login_request-Switched lib order hasher env n.session a b (msg_data n.recvnode) root name
            password w s on alive named off other) in
      (v.user, v.running, ground (arith, v.stale, v.alive))
