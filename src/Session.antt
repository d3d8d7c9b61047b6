-- ===== src/Session.antt =====
-- `CSession` (CoroutineServer/CSession.h and CSession.cpp) without its read loop: the login uid,
-- `Close`, and the send queue with its chain of asynchronous writes. Each method is one step; the
-- environment decides when an outstanding write completes and whether it fails.
pub mod Queue
pub mod Writing
pub mod Order
mod Tests
use coroutine_server.Prelude.{
  ℕ, Bool, true, false, ◌||◌, Option, none, some, List, [], ◌∷◌, ◌++◌, Bytes, ℤ, pos, leb_ℤ, ltb_ℤ,
  ltb, ◌==ℤ◌, signed, to_short, if◌then◌else◌, length,
}
use coroutine_server.Const.{max_length, max_sendque}
use coroutine_server.Wire.{SendNode, send_node}
use coroutine_server.Wire.Endian.{ByteOrder}

pub record Session : Type 0 where
  pub uuid : Bytes
  -- 0 means not logged in.
  pub login_uid : ℤ
  pub b_stop : Bool
  pub socket_open : Bool
  -- Oldest first.
  pub send_que : List SendNode
  -- The node that the outstanding `async_write` reads, if there is one.
  pub writing : Option SendNode
  -- The nodes whose write has completed, oldest first.
  pub sent : List SendNode
  -- A `shared_ptr` owns the object, so `shared_from_this` does not throw.
  pub owned : Bool

-- The constructor; the uuid is random.
unfoldable pub new_session : Bytes → Session
new_session uuid = record {
  uuid = uuid;
  login_uid = pos 0;
  b_stop = false;
  socket_open = true;
  send_que = [];
  writing = none;
  sent = [];
  owned = true;
}

abbrev pub get_login_uid : Session → ℤ
get_login_uid s = s.login_uid

abbrev pub set_login_uid : ℤ → Session → Session
set_login_uid uid s = record s { login_uid = uid }

-- `Close`, with the uid that it hands to `RemoveOnlineUser`; 0 if there is none.
unfoldable pub close : Session → Session × ℤ
close s =
    if s.b_stop
    then (s, pos 0)
    else let stopped = record s { b_stop = true; socket_open = false } in
      if s.login_uid ==ℤ pos 0
      then (stopped, pos 0)
      else (record stopped { login_uid = pos 0 }, s.login_uid)

abbrev pub is_empty {ℓ} : {A : Type ℓ} → List A → Bool
is_empty [] = true
is_empty (_ ∷ _) = false

-- The end of `Send`: push, and start a write if none was in progress.
unfoldable pub enqueue : SendNode → Session → Session
enqueue n s =
    let queued = record s { send_que = s.send_que ++ n ∷ [] } in
    if is_empty s.send_que
    then (if s.owned then record queued { writing = some n } else queued)
    else queued

module _ (order : ByteOrder) where
  -- `Send(const char* msg, short max_len, short msgid)`; the node's constructor cannot throw for a
  -- length that passed the test.
  unfoldable pub send_chars : Bytes → ℕ → ℕ → Session → Session
  unfolding enqueue
  send_chars msg max_len msgid s =
      if s.b_stop
      then s
      else if leb_ℤ (signed max_len) (pos 0) || ltb_ℤ (pos max_length) (signed max_len)
      then s
      else if ltb max_sendque (length s.send_que)
      then s
      else elim (send_node order msg max_len msgid) [ none ↦ s | some n ↦ enqueue n s ]

  -- `Send(std::string msg, short msgid)`
  unfoldable pub send : Bytes → ℕ → Session → Session
  unfolding send_chars
  send msg msgid s = send_chars msg (to_short (length msg)) msgid s

abbrev pub rest_of {ℓ} : {A : Type ℓ} → List A → List A
rest_of [] = []
rest_of (_ ∷ xs) = xs

-- The next write of `HandleWrite`, when the queue is not empty; a throw closes the session.
abbrev pub write_next : List SendNode → Session → Session × ℤ
write_next [] s = (s, pos 0)
write_next (n ∷ _) s = if s.owned then (record s { writing = some n }, pos 0) else close s

-- `HandleWrite`, with the uid that a `Close` in it hands to `RemoveOnlineUser`. `failed` is whether
-- it was called with an error.
unfoldable pub handle_write : Bool → Session → Session × ℤ
unfolding close
handle_write failed s =
    if failed
    then close s
    else let popped = record s { send_que = rest_of s.send_que } in
      write_next popped.send_que popped

abbrev pub end_write : Option SendNode → Session → Session
end_write none s = s
end_write (some n) s = record s { writing = none; sent = s.sent ++ n ∷ [] }

-- The conversion of `msgid` to `short` is that of the call.
-- What the environment and the server's threads do to a session.
pub data Event : Type 0 where
  sends : Bytes → ℕ → Event
  completes fails closes : Event

-- A completed write has delivered its node; a completion needs an outstanding write.
unfoldable pub step : ByteOrder → Event → Session → Session
unfolding send close handle_write
step order (sends msg msgid) s = send order msg (to_short msgid) s
step order closes s = (close s).0
step order completes s = elim s.writing [
  | none ↦ s
  | some n ↦ (handle_write false (end_write s.writing s)).0
]
step order fails s = elim s.writing [
  | none ↦ s
  | some n ↦ (handle_write true (record s { writing = none })).0
]

unfoldable pub run : ByteOrder → List Event → Session → Session
run order [] s = s
run order (e ∷ es) s = run order es (step order e s)
