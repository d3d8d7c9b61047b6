-- ===== src/World/Steps.antt =====
-- What the input and output of a session do to the logins: an accepted connection, the end of a read
-- loop, the end of a write and the end of the object.
use coroutine_server.Prelude.{
  if◌then◌else◌, Option, ℕ, ◌≡◌, Bool, true, false, none, some, Bytes, ℤ, pos, ==ℤ_iff, arith, inl,
  inr, ◌⊎◌,
}
use coroutine_server.Session
use coroutine_server.Wire
use coroutine_server.Online.{lookup-remove_online_user}
use coroutine_server.World.{
  World, with_session, set_session, clear_session, handle_accept, end_session, finish_write,
  write_done, destroy,
}
use coroutine_server.World.Logins.{LoginInv, close-LoginInv}

pub handle_accept-LoginInv :
    (sid : ℕ) (failed : Bool) (w : World) → LoginInv w → LoginInv (handle_accept sid failed w)
unfolding handle_accept
handle_accept-LoginInv sid failed w v = record {
  named = λ s. ground (arith, v.named s);
  signs = λ s. ground (arith, v.signs s);
  gone = λ s. ground (arith, v.gone s);
}

pub clear_session-LoginInv :
    (uuid : Bytes) (w : World) → LoginInv w → LoginInv (clear_session uuid w)
unfolding clear_session
clear_session-LoginInv uuid w v = record { named = v.named; signs = v.signs; gone = v.gone }

pub end_session-LoginInv : (sid : ℕ) (w : World) → LoginInv w → LoginInv (end_session sid w)
end_session-LoginInv sid w v =
    unfold end_session in clear_session-LoginInv _ _ (close-LoginInv sid w v)

if-LoginInv : (b : Bool) (w w' : World) → LoginInv w → LoginInv w' → LoginInv (if b then w else w')
if-LoginInv true w w' v v' = v
if-LoginInv false w w' v v' = v'

-- A method of a session either leaves its login alone or closes an open session and hands its uid over.
abbrev Quits : Session.Session → Session.Session → ℤ → Type 0
Quits s s' uid =
    ((s'.b_stop ≡ s.b_stop) × (s'.login_uid ≡ s.login_uid) × (uid ≡ pos 0))
    ⊎ ((s.b_stop ≡ false) × (s'.b_stop ≡ true) × (s'.login_uid ≡ pos 0) × (uid ≡ s.login_uid))

with_session-LoginInv :
    (sid : ℕ) (f : Session.Session → Session.Session × ℤ) (w : World)
    → Quits (w.sessions sid) (f (w.sessions sid)).0 (f (w.sessions sid)).1
    → LoginInv w
    → LoginInv (with_session sid f w)
unfolding with_session
with_session-LoginInv sid f w (inl (b, l, u)) v = record {
  named = λ s. ground (arith, v.named s, b, l, u);
  signs = λ s. ground (arith, v.signs s, b, l, u);
  gone = λ s. ground (arith, v.gone s, b, l, u);
}
with_session-LoginInv sid f w (inr (o, b, l, u)) v = record {
  named = λ s. ground (
    arith,
    o,
    b,
    l,
    u,
    v.named s,
    v.named sid,
    v.signs sid,
    lookup-remove_online_user (w.sessions sid).login_uid (w.sessions s).login_uid w.online,
    ==ℤ_iff (w.sessions sid).login_uid (w.sessions s).login_uid,
  );
  signs = λ s. ground (arith, v.signs s, b, l, u);
  gone = λ s. ground (arith, v.gone s, b, l, u);
}

handle_write-Quits :
    (failed : Bool) (s : Session.Session)
    → Quits s (Session.handle_write failed s).0 (Session.handle_write failed s).1
unfolding Session.handle_write
handle_write-Quits failed s = ground arith

-- A session that changes in neither its login nor its stop flag.
set_session-LoginInv :
    (sid : ℕ) (s' : Session.Session) (w : World)
    → s'.b_stop ≡ (w.sessions sid).b_stop
    → s'.login_uid ≡ (w.sessions sid).login_uid
    → LoginInv w
    → LoginInv (set_session sid s' w)
set_session-LoginInv sid s' w b l v = record {
  named = λ s. ground (arith, v.named s, b, l);
  signs = λ s. ground (arith, v.signs s, b, l);
  gone = λ s. ground (arith, v.gone s, b, l);
}

ended_write-LoginInv :
    (sid : ℕ) (s' : Session.Session) (failed : Bool) (w : World)
    → s'.b_stop ≡ (w.sessions sid).b_stop
    → s'.login_uid ≡ (w.sessions sid).login_uid
    → LoginInv w
    → LoginInv (with_session sid (Session.handle_write failed) (set_session sid s' w))
ended_write-LoginInv sid s' failed w b l v =
    with_session-LoginInv sid (Session.handle_write failed) (set_session sid s' w)
      (handle_write-Quits failed ((set_session sid s' w).sessions sid))
      (set_session-LoginInv sid s' w b l v)

pub destroy-LoginInv : (sid : ℕ) (w : World) → LoginInv w → LoginInv (destroy sid w)
unfolding destroy Session.close
destroy-LoginInv sid w v = record {
  named = λ s. ground (
    arith,
    v.named s,
    v.named sid,
    v.signs sid,
    lookup-remove_online_user (w.sessions sid).login_uid (w.sessions s).login_uid w.online,
    ==ℤ_iff (w.sessions sid).login_uid (w.sessions s).login_uid,
  );
  signs = λ s. ground (arith, v.signs s);
  gone = λ s. ground (arith, v.gone s);
}

ended-same :
    (failed : Bool) (s : Session.Session)
    → let s' = if failed then record s { writing = none } else Session.end_write s.writing s in
      (s'.b_stop ≡ s.b_stop) × (s'.login_uid ≡ s.login_uid)
ended-same failed s = ground arith

finish_write-LoginInv :
    (sid : ℕ) (failed : Bool) (w : World) → LoginInv w → LoginInv (finish_write sid failed w)
unfolding finish_write
finish_write-LoginInv sid failed w v =
    let (b, l) = ended-same failed (w.sessions sid) in
    let v' = ended_write-LoginInv sid _ failed w b l v in
    if-LoginInv _ _ _ (clear_session-LoginInv _ _ v') v'

pub write_done-LoginInv :
    (sid : ℕ) (failed : Bool) (w : World) → LoginInv w → LoginInv (write_done sid failed w)
unfolding write_done
write_done-LoginInv sid failed w v = of_writing (w.sessions sid).writing
  where
    of_writing :
        (o : Option Wire.SendNode)
        → LoginInv (elim o [ none ↦ w | some _ ↦ finish_write sid failed w ])
    of_writing none = v
    of_writing (some _) = finish_write-LoginInv sid failed w v

-- None of them touches the database.
pub same_db :
    (sid : ℕ) (failed : Bool) (w : World)
    → ((handle_accept sid failed w).db ≡ w.db)
      × ((end_session sid w).db ≡ w.db)
      × ((write_done sid failed w).db ≡ w.db)
      × ((destroy sid w).db ≡ w.db)
unfolding handle_accept end_session write_done finish_write with_session destroy Session.close
same_db sid failed w = ground arith
