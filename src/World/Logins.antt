-- ===== src/World/Logins.antt =====
-- Which session speaks for which user.
use coroutine_server.Prelude.{
  ℕ, ◌%◌, ◌≡◌, true, false, some, Bytes, arith, ℤ, pos, negsuc, ◌==ℤ◌, ==ℤ_iff, ◌<ℤ◌, ◌≤ℤ◌,
  if◌then◌else◌,
}
use coroutine_server.Wire.Endian.{ByteOrder}
use coroutine_server.Session.{Session}
use coroutine_server.Session
use coroutine_server.Online.{
  lookup, lookup-add_online_user, lookup-remove_online_user, get_session_by_uid_lem,
}
use coroutine_server.World.{World, close, send, set_login_uid, add_online, get_session}

-- Every open session that is logged in is the one that the online map names for its user; an object
-- that is gone is closed.
pub record LoginInv (w : World) : Type 0 where
  pub named :
      (s : ℕ)
      → (w.sessions s).b_stop ≡ false
      → pos 0 <ℤ (w.sessions s).login_uid
      → lookup (w.sessions s).login_uid w.online ≡ some s
  pub signs : (s : ℕ) → pos 0 ≤ℤ (w.sessions s).login_uid
  pub gone : (s : ℕ) → w.expired s ≡ true → (w.sessions s).b_stop ≡ true

-- So no two open sessions are logged in as one user.
pub LoginInv-exclusive :
    (w : World) (s t : ℕ)
    → LoginInv w
    → (w.sessions s).b_stop ≡ false
    → (w.sessions t).b_stop ≡ false
    → pos 0 <ℤ (w.sessions s).login_uid
    → (w.sessions s).login_uid ≡ (w.sessions t).login_uid
    → s ≡ t
LoginInv-exclusive w s t v os ot p e = ground (arith, v.named s, v.named t)

-- `Send` touches the queue alone.
pub send-b_stop :
    (order : ByteOrder) (msg : Bytes) (id : ℕ) (s : Session)
    → (Session.send order msg id s).b_stop ≡ s.b_stop
unfolding Session.send Session.enqueue
send-b_stop order msg id s = ground arith

pub send-login_uid :
    (order : ByteOrder) (msg : Bytes) (id : ℕ) (s : Session)
    → (Session.send order msg id s).login_uid ≡ s.login_uid
unfolding Session.send Session.enqueue
send-login_uid order msg id s = ground arith

pub send-LoginInv :
    (order : ByteOrder) (sid : ℕ) (msg : Bytes) (id : ℕ) (w : World)
    → LoginInv w
    → LoginInv (send order sid msg id w)
unfolding send
send-LoginInv order sid msg id w v = record {
  named = λ s. ground (
    arith,
    send-b_stop order msg (id % 65536) (w.sessions sid),
    send-login_uid order msg (id % 65536) (w.sessions sid),
    v.named s,
  );
  signs = λ s. ground (arith, send-login_uid order msg (id % 65536) (w.sessions sid), v.signs s);
  gone = λ s. ground (arith, send-b_stop order msg (id % 65536) (w.sessions sid), v.gone s);
}

pub close-LoginInv : (sid : ℕ) (w : World) → LoginInv w → LoginInv (close sid w)
unfolding close Session.close
close-LoginInv sid w v = record {
  named = λ s. ground (
    arith,
    v.named s,
    v.named sid,
    v.signs sid,
    lookup-remove_online_user (w.sessions sid).login_uid (w.sessions s).login_uid w.online,
    ==ℤ_iff (w.sessions sid).login_uid (w.sessions s).login_uid,
  );
  signs = λ s. ground (arith, v.signs s);
  gone = λ s. ground (arith, v.gone s);
}

pub get_session-LoginInv : (uid : ℤ) (w : World) → LoginInv w → LoginInv (get_session uid w).1
unfolding get_session
get_session-LoginInv uid w v = record {
  named = λ s. ground (
    arith,
    v.named s,
    v.gone s,
    get_session_by_uid_lem w.expired uid (w.sessions s).login_uid w.online,
    ==ℤ_iff uid (w.sessions s).login_uid,
  );
  signs = λ s. v.signs s;
  gone = λ s. v.gone s;
}

pub add_online-get :
    (uid : ℤ) (sid : ℕ) (w : World) (j : ℤ)
    → pos 0 <ℤ uid
    → lookup j (add_online uid sid w).online ≡ (if uid ==ℤ j then some sid else lookup j w.online)
unfolding add_online
add_online-get (pos n) sid w j h = ground (arith, lookup-add_online_user n sid j w.online)
add_online-get (negsuc n) sid w j h = absurd (omega arith)

-- The login of `sid` as `uid`, when no other open session is logged in as `uid`.
pub login-LoginInv :
    (sid : ℕ) (uid : ℤ) (w : World)
    → pos 0 <ℤ uid
    → ((s : ℕ) → (w.sessions s).b_stop ≡ false → (w.sessions s).login_uid ≡ uid → s ≡ sid)
    → LoginInv w
    → LoginInv (add_online uid sid (set_login_uid sid uid w))
unfolding add_online set_login_uid
login-LoginInv sid uid w h alone v = record {
  named = λ s. ground (
    arith,
    v.named s,
    alone s,
    add_online-get uid sid w (w.sessions s).login_uid h,
    ==ℤ_iff uid (w.sessions s).login_uid,
    ==ℤ_iff uid uid,
    add_online-get uid sid w uid h,
  );
  signs = λ s. ground (arith, v.signs s);
  gone = λ s. ground (arith, v.gone s);
}
