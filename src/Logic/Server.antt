-- ===== src/Logic/Server.antt =====
-- The whole server as a transition system: its moves are the rounds of the logic worker and what the
-- input and output of the sessions do, each as one step, in any order.
use coroutine_server.Prelude.{ℕ, ◌≡◌, sym, Bool, true, false, [], Bytes, pos, ◌<ℤ◌, subst, arith}
use coroutine_server.Wire.Endian.{ByteOrder}
use coroutine_server.Session.{new_session}
use coroutine_server.World.{World, handle_accept, end_session, write_done, destroy}
use coroutine_server.World.Logins.{LoginInv, LoginInv-exclusive}
use coroutine_server.World.Steps.{
  handle_accept-LoginInv, end_session-LoginInv, write_done-LoginInv, destroy-LoginInv, same_db,
}
use coroutine_server.Logic.Json.{JsonLib}
use coroutine_server.Logic.Replies.{Env}
use coroutine_server.Logic.Invariant.{ServerInv}
use coroutine_server.Logic.Dispatch.{LogicNode, callback, deal}
use coroutine_server.Logic.Callbacks.{Kept, if-Kept, some-Kept, none-Kept, deal-Kept}
use coroutine_server.Logic.Handlers.{
  hello_world-Inv, register_request-Inv, login_request-Inv, get_friend_list_request-Inv,
  add_friend_request-Inv, chat_message_request-Inv, get_offline_message_request-Inv,
}
use coroutine_server.Db.Users.{AccountsValid}
use coroutine_server.Db.Messages.{MessagesValid}

-- The server before its first connection: empty tables, and no session has started.
unfoldable pub start : (ℕ → Bytes) → World
start uuids = record {
  sessions = λ s. new_session (uuids s);
  expired = λ s. false;
  online = [];
  active = [];
  db = record { users = []; next_uid = 1; friends = []; messages = []; next_msg_id = 1 };
}

module _ {Json : Type 0} (lib : JsonLib Json) (order : ByteOrder) (hasher : Bytes → ℕ) where
  callback-Kept : (env : Env) (sid id : ℕ) → Kept ServerInv sid (callback lib order hasher env id)
  unfolding callback
  callback-Kept env sid id =
      search
        (
          if-Kept,
          some-Kept,
          none-Kept,
          hello_world-Inv lib order hasher env,
          register_request-Inv lib order hasher env,
          login_request-Inv lib order hasher env,
          get_friend_list_request-Inv lib order hasher env,
          add_friend_request-Inv lib order hasher env,
          chat_message_request-Inv lib order hasher env,
          get_offline_message_request-Inv lib order hasher env,
        )
        depth 20

  -- Dealing any message, of a known id or not, on every path of its handler and whatever SQLite and
  -- the JSON library answer, keeps the invariant of the server: every open session that is logged in
  -- is the one that the online map names for its user, uids and names of accounts are unique, and the
  -- rows of messages are valid.
  pub deal-ServerInv :
      (env : Env) (n : LogicNode) (w : World)
      → ServerInv w
      → ServerInv (deal lib order hasher env n w)
  deal-ServerInv env n w =
      deal-Kept lib order hasher env ServerInv n w (callback-Kept env n.session n.recvnode.msg_id)

  pub data Move : World → World → Type 0 where
    accepts : (sid : ℕ) (failed : Bool) {w : World} → Move w (handle_accept sid failed w)
    deals : (env : Env) (n : LogicNode) {w : World} → Move w (deal lib order hasher env n w)
    ends : (sid : ℕ) {w : World} → Move w (end_session sid w)
    writes : (sid : ℕ) (failed : Bool) {w : World} → Move w (write_done sid failed w)
    destroys : (sid : ℕ) {w : World} → Move w (destroy sid w)

  -- Some moves lead from the first state to the second.
  pub data Reaches : World → World → Type 0 where
    done : {w : World} → Reaches w w
    step : {u v w : World} → Reaches u v → Move v w → Reaches u w

  other-ServerInv : (w w' : World) → w'.db ≡ w.db → ServerInv w → LoginInv w' → ServerInv w'
  other-ServerInv w w' e v l = record {
    logins = l;
    accounts = subst AccountsValid (sym e) v.accounts;
    messages = subst MessagesValid (sym e) v.messages;
  }

  pub Move-ServerInv : {u w : World} → Move u w → ServerInv u → ServerInv w
  Move-ServerInv (accepts sid failed {w = u}) v =
      other-ServerInv u _ (same_db sid failed u).0 v (handle_accept-LoginInv sid failed u v.logins)
  Move-ServerInv (deals env n {w = u}) v = deal-ServerInv env n u v
  Move-ServerInv (ends sid {w = u}) v =
      other-ServerInv u _ (same_db sid true u).1 v (end_session-LoginInv sid u v.logins)
  Move-ServerInv (writes sid failed {w = u}) v =
      other-ServerInv u _ (same_db sid failed u).2 v (write_done-LoginInv sid failed u v.logins)
  Move-ServerInv (destroys sid {w = u}) v =
      other-ServerInv u _ (same_db sid true u).3 v (destroy-LoginInv sid u v.logins)

  pub start-ServerInv : (uuids : ℕ → Bytes) → ServerInv (start uuids)
  unfolding start new_session
  start-ServerInv uuids = record {
    logins = record {
      named = λ s. ground arith;
      signs = λ s. ground arith;
      gone = λ s. ground arith;
    };
    accounts = record { uids = ground arith; names = tt };
    messages = record { keys = ground arith; positive = tt };
  }

  pub Reaches-ServerInv : {u w : World} → Reaches u w → ServerInv u → ServerInv w
  Reaches-ServerInv done v = v
  Reaches-ServerInv (step r m) v = Move-ServerInv m (Reaches-ServerInv r v)

  -- In every state that the server reaches from its start by moves that run one after another, each to
  -- its end, two open sessions that are logged in as the same user are one session.
  pub reached-exclusive :
      (uuids : ℕ → Bytes) (w : World) (s t : ℕ)
      → Reaches (start uuids) w
      → (w.sessions s).b_stop ≡ false
      → (w.sessions t).b_stop ≡ false
      → pos 0 <ℤ (w.sessions s).login_uid
      → (w.sessions s).login_uid ≡ (w.sessions t).login_uid
      → s ≡ t
  reached-exclusive uuids w s t r =
      LoginInv-exclusive w s t (Reaches-ServerInv r (start-ServerInv uuids)).logins
