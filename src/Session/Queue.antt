-- ===== src/Session/Queue.antt =====
-- The send queue: what `Send` accepts, its bound, and that one write is outstanding exactly while
-- there is something to send.
use coroutine_server.Prelude.{
  ℕ, ◌%◌, ◌≤◌, ◌<◌, ◌≡◌, refl, ap, Bool, true, false, ◌||◌, Option, none, some, List, [], ◌∷◌, ◌++◌,
  Bytes, arith, ltb, if◌then◌else◌, length, length-append, ◌⊎◌, inl, inr, List-cases,
}
use coroutine_server.Const.{max_length}
use coroutine_server.Wire.{SendNode}
use coroutine_server.Wire.Endian.{ByteOrder}
use coroutine_server.Wire.Frame.{frame_node, send_node-some}
use coroutine_server.Session.{
  new_session, is_empty, Session, Event, sends, completes, fails, closes, enqueue, send_chars, send,
  close, step, run,
}

-- The length that `Send(std::string, short)` passes on.
abbrev pub short_length : Bytes → ℕ
short_length msg = length msg % 65536

-- What `send` does, by plain ranges.
abbrev pub send_outcome : Bytes → ℕ → Session → Session
send_outcome msg msgid s =
    let len = short_length msg in
    if s.b_stop || ltb len 1 || ltb max_length len || ltb 1000 (length s.send_que)
    then s
    else enqueue (frame_node msg len msgid) s

-- A message is queued, as the frame of its first (length mod 65536) bytes, exactly when the session
-- is open, that number is from 1 to 2048, and at most 1000 messages wait; otherwise it is dropped
-- and nothing changes.
pub send_lem :
    (order : ByteOrder) (msg : Bytes) (msgid : ℕ) (s : Session)
    → msgid < 65536
    → send order msg msgid s ≡ send_outcome msg msgid s
unfolding send_chars send
send_lem order msg msgid s h = ground (arith, send_node-some order msg msgid (short_length msg) h)

-- How the outstanding write and the queue belong together: a write is that of the queue's front,
-- and only a closed session has messages that nothing will send.
abbrev pub Driven : Bool → Option SendNode → List SendNode → Type 0
Driven stop none [] = Unit {0}
Driven stop none (_ ∷ _) = stop ≡ true
Driven stop (some n) [] = ⊥
Driven stop (some n) (m ∷ _) = m ≡ n

pub record Inv (s : Session) : Type 0 where
  pub bounded : length s.send_que ≤ 1001
  pub driven : Driven s.b_stop s.writing s.send_que
  pub owner : s.owned ≡ true

Driven-push :
    (stop : Bool) (w : Option SendNode) (q : List SendNode) (n : SendNode)
    → stop ≡ false
    → Driven stop w q
    → Driven stop (if is_empty q then some n else w) (q ++ n ∷ [])
Driven-push stop none [] n e d = refl
Driven-push stop none (_ ∷ _) n e d = d
Driven-push stop (some _) [] n e d = refl
Driven-push stop (some _) (_ ∷ _) n e d = d

enqueue-Inv :
    (n : SendNode) (s : Session)
    → s.b_stop ≡ false
    → length s.send_que ≤ 1000
    → Inv s
    → Inv (enqueue n s)
unfolding enqueue
enqueue-Inv n s e h v = ground (
  arith,
  Driven-push s.b_stop s.writing s.send_que n e v.driven,
  length-append s.send_que (n ∷ []),
)

Driven-stop :
    (stop : Bool) (w : Option SendNode) (q : List SendNode) → Driven stop w q → Driven true w q
Driven-stop stop none [] d = tt
Driven-stop stop none (_ ∷ _) d = refl
Driven-stop stop (some _) [] d = d
Driven-stop stop (some _) (_ ∷ _) d = d

close-Inv : (s : Session) → Inv s → Inv (close s).0
unfolding close
close-Inv s v = ground (arith, Driven-stop s.b_stop s.writing s.send_que v.driven)

-- A write is outstanding, of the front of the queue, or none is.
pub Driven-cases :
    (stop : Bool) (w : Option SendNode) (q : List SendNode)
    → Driven stop w q
    → (w ≡ none) ⊎ ((n : SendNode) × (rest : List SendNode) × (w ≡ some n) × (q ≡ n ∷ rest))
Driven-cases stop none q d = inl refl
Driven-cases stop (some n) [] d = absurd d
Driven-cases stop (some n) (m ∷ q) d = inr (n, q, refl, ap (λ x. x ∷ q) d)

completes-Inv : (order : ByteOrder) (s : Session) → Inv s → Inv (step order completes s)
unfolding step
completes-Inv order s v = elim (Driven-cases s.b_stop s.writing s.send_que v.driven) [
  | inl idle ↦ rw (idle, step) v
  | inr (n, rest, w, q) ↦ elim (List-cases rest) [
    | inl last ↦ ground (arith, v, w, q, last)
    | inr (m, more, e) ↦ ground (arith, v, w, q, e)
  ]
]

fails-Inv : (order : ByteOrder) (s : Session) → Inv s → Inv (step order fails s)
unfolding step
fails-Inv order s v = elim (Driven-cases s.b_stop s.writing s.send_que v.driven) [
  | inl idle ↦ rw (idle, step) v
  | inr (n, rest, w, q) ↦ ground (arith, v, w, q)
]

-- Every event keeps the invariant.
pub step-Inv : (order : ByteOrder) (e : Event) (s : Session) → Inv s → Inv (step order e s)
unfolding step
step-Inv order (sends msg id) s v =
    rw (send_lem order msg (id % 65536) s (omega arith))
      (ground (arith, enqueue-Inv (frame_node msg (short_length msg) (id % 65536)) s, v))
step-Inv order completes s v = completes-Inv order s v
step-Inv order fails s v = fails-Inv order s v
step-Inv order closes s v = close-Inv s v

pub new_session-Inv : (uuid : Bytes) → Inv (new_session uuid)
unfolding new_session
new_session-Inv uuid = record { bounded = omega arith; driven = tt; owner = refl }

pub run-Inv : (order : ByteOrder) (es : List Event) (s : Session) → Inv s → Inv (run order es s)
unfolding run
run-Inv order [] s v = v
run-Inv order (e ∷ es) s v = run-Inv order es (step order e s) (step-Inv order e s v)
