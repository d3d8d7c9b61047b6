-- ===== src/Logic/Again.antt =====
-- A login on the connection on which the user is logged in already: the session is found as the
-- user's old one and closed.
mod Tests
use native.Mathlib.Decide.{ℕ_discrete}
use coroutine_server.Prelude.{
  ℕ, ◌%◌, ==_iff, suc, ◌≡◌, refl, sym, ap, ◌∙◌, true, false, some, List, [], ◌∷◌, Bytes, ℤ, pos,
  arith, subst,
}
use coroutine_server.Const.{msg_login_req}
use coroutine_server.Wire.{SendNode}
use coroutine_server.Wire.Endian.{ByteOrder}
use coroutine_server.Session
use coroutine_server.Session.{send_chars}
use coroutine_server.Online.{lookup}
use coroutine_server.Db.{Message, pending}
use coroutine_server.Db.Messages.{Healthy}
use coroutine_server.World.{World, close, send, set_login_uid, add_online, get_session}
use coroutine_server.Logic.Monad.{ok, ◌>>=◌}
use coroutine_server.Logic.Json.{JsonLib}
use coroutine_server.Logic.Replies.{Env, on_db, reply}
use coroutine_server.Logic.Accounts.{close_old, push_offline, login_pull, login_done, login_request}
use coroutine_server.Logic.Monad.{maybe}
use coroutine_server.Logic.Login.{login_bind_lem, found-only, close_old-close}
use coroutine_server.Logic.Keeps.{
  Keeps, bind-ok, state-after, keeps_rules, reply-Keeps, guarded-after,
}
use coroutine_server.Logic.Invariant.{ServerInv}
use coroutine_server.Logic.Dispatch.{LogicNode, msg_data, deal}
use coroutine_server.Logic.Logged.{Welcome, welcome-done, deal-login, deal-LoggedIn}

-- The session is closed, with these messages in its queue.
record Cut (sid : ℕ) (q : List SendNode) (w : World) : Type 0 where
  pub stopped : (w.sessions sid).b_stop ≡ true
  pub queue : (w.sessions sid).send_que ≡ q

send-stopped :
    (order : ByteOrder) (msg : Bytes) (id : ℕ) (s : Session.Session)
    → s.b_stop ≡ true
    → Session.send order msg id s ≡ s
unfolding Session.send send_chars
send-stopped order msg id s e = ground (arith, e)

close-Cut : (sid : ℕ) (w : World) → Cut sid (w.sessions sid).send_que (close sid w)
unfolding close Session.close
close-Cut sid w = record { stopped = ground arith; queue = ground arith }

bound-Cut :
    (sid : ℕ) (uid : ℤ) (q : List SendNode) (w : World)
    → Cut sid q w
    → Cut sid q (add_online uid sid (set_login_uid sid uid w))
unfolding add_online set_login_uid
bound-Cut sid uid q w v = record {
  stopped = ground (arith, v.stopped);
  queue = ground (arith, v.queue);
}

module _ {Json : Type 0} (lib : JsonLib Json) (order : ByteOrder) (hasher : Bytes → ℕ) (env : Env)
    (sid : ℕ) (q : List SendNode) where
  send-Cut :
      (t : ℕ) (msg : Bytes) (id : ℕ) (w : World) → Cut sid q w → Cut sid q (send order t msg id w)
  unfolding send
  send-Cut t msg id w v = elim (ℕ_discrete t sid) [
    | yes same ↦ subst (λ (s : ℕ). Cut sid q (send order s msg id w)) (sym same) (kept v)
    | no other ↦ record {
      stopped = ground (arith, v.stopped, ==_iff t sid);
      queue = ground (arith, v.queue, ==_iff t sid);
    }
  ]
    where
      kept : Cut sid q w → Cut sid q (send order sid msg id w)
      kept c =
          let same = send-stopped order msg (id % 65536) (w.sessions sid) c.stopped in
          record {
            stopped = ground (arith, c.stopped, same, ==_iff sid sid);
            queue = ground (arith, c.queue, same, ==_iff sid sid);
          }

  reply-Cut : (t : ℕ) (body : Bytes) (id : ℕ) → Keeps (Cut sid q) (reply lib order t body id)
  reply-Cut = reply-Keeps lib order (Cut sid q) send-Cut

  push_offline-Cut :
      (ms : List Message) → Keeps (Cut sid q) (push_offline lib order hasher env sid ms)
  unfolding push_offline
  push_offline-Cut [] = search keeps_rules
  push_offline-Cut (m ∷ ms) = search (keeps_rules, reply-Cut)

  login_pull-Cut :
      (uid : ℤ) (w : World) → Cut sid q w → Cut sid q (login_pull lib order hasher env sid uid w).1
  unfolding login_pull on_db
  login_pull-Cut uid w v =
      state-after {P = Cut sid q} _ _ w
        (λ ms. search (keeps_rules, push_offline-Cut, reply-Cut) depth 8)
        (record { stopped = v.stopped; queue = v.queue })

  login_done-Cut :
      (uid : ℕ) (w : World)
      → (get_session (pos (suc uid)) w).0 ≡ some sid
      → q ≡ (w.sessions sid).send_que
      → Cut sid q (login_done lib order hasher env sid (pos (suc uid)) w).1
  unfolding login_done get_session
  login_done-Cut uid w found same =
      let closed = close_old-close lib order hasher env (pos (suc uid)) (omega arith) sid w found in
      rw
        (bind-ok _ (λ _. login_pull lib order hasher env sid (pos (suc uid))) w _ _
          (login_bind_lem lib order hasher env (pos (suc uid)) (omega arith) sid w))
        (login_pull-Cut (pos (suc uid)) _ (
          bound-Cut sid (pos (suc uid)) q _ (
            subst (λ (v : World). Cut sid q v) (sym closed)
              (subst
                (λ (p : List SendNode). Cut sid p (close sid (get_session (pos (suc uid)) w).1))
                (sym same) (close-Cut sid (get_session (pos (suc uid)) w).1)))))

  login_request-Cut :
      (d : Bytes) (root : Json) (name password : Bytes) (uid : ℕ) (w : World)
      → Welcome lib order hasher env sid uid d root name password w
      → (get_session (pos (suc uid)) w).0 ≡ some sid
      → q ≡ (w.sessions sid).send_que
      → Cut sid q (login_request lib order hasher env sid d w).1
  unfolding login_request maybe
  login_request-Cut d root name password uid w s found same =
      guarded-after lib order (Cut sid q) send-Cut sid _ _ w (
        rw (s.parsed, welcome-done lib order hasher env sid uid d root name password w s)
          (login_done-Cut uid w found same))

module _ {Json : Type 0} (lib : JsonLib Json) (order : ByteOrder) (hasher : Bytes → ℕ)
    (env : Env) where
  -- In a state with the invariant of the server, if a user logs in again on the open session on
  -- which the user is logged in, with the right password and while SQLite makes no error, then the
  -- session is closed and nothing is queued in it, although the online map names it for the user and
  -- the user's pending messages are marked as delivered.
  pub deal-again :
      (n : LogicNode) (uid : ℕ) (root : Json) (name password : Bytes) (w : World)
      → n.recvnode.msg_id ≡ msg_login_req
      → Welcome lib order hasher env n.session uid (msg_data n.recvnode) root name password w
      → Healthy (env.outcome 1)
      → ServerInv w
      → (w.sessions n.session).b_stop ≡ false
      → (w.sessions n.session).login_uid ≡ pos (suc uid)
      → let w' = deal lib order hasher env n w in
        ((w'.sessions n.session).b_stop ≡ true)
        × ((w'.sessions n.session).send_que ≡ (w.sessions n.session).send_que)
        × (lookup (pos (suc uid)) w'.online ≡ some n.session)
        × (pending (pos (suc uid)) w'.db.messages ≡ [])
  deal-again n uid root name password w e s h v open_ here =
      let found =
        found-only lib order hasher env (pos (suc uid)) (omega arith) n.session w v.logins open_
          here in
      let cut =
        subst (Cut n.session (w.sessions n.session).send_que)
          (sym (deal-login lib order hasher env n w e))
          (login_request-Cut lib order hasher env n.session (w.sessions n.session).send_que
            (msg_data n.recvnode) root name password uid w s found refl) in
      let logged = deal-LoggedIn lib order hasher env n uid root name password w e s h in
      (cut.stopped, cut.queue, logged.named, logged.pulled)
