-- ===== src/Session/Order.antt =====
-- The order of what a session sends: the queue is a pipe.
use mathlib.Core.List.{Sublistᴰ}
use coroutine_server.Prelude.{
  ℕ, ◌%◌, ◌≡◌, refl, sym, ap, ◌∙◌, false, List, [], ◌∷◌, ◌++◌, Bytes, arith, append_assoc,
  append-nil, map, List-cases, inl, inr, ◌⊎◌,
}
use coroutine_server.Wire.{SendNode}
use coroutine_server.Wire.Endian.{ByteOrder}
use coroutine_server.Wire.Frame.{frame_node}
use coroutine_server.Session.{
  Session, Event, sends, completes, fails, closes, enqueue, send, close, step, run,
}
use coroutine_server.Session.Queue.{short_length, send_lem, Inv, step-Inv, Driven-cases}

-- All that a session has taken to send: what has gone out, then what waits.
abbrev pub pipe : Session → List SendNode
pipe s = s.sent ++ s.send_que

-- The frames that the calls of `Send` among the events ask for.
abbrev pub offered : List Event → List SendNode
offered [] = []
offered (sends msg id ∷ es) = frame_node msg (short_length msg) (id % 65536) ∷ offered es
offered (completes ∷ es) = offered es
offered (fails ∷ es) = offered es
offered (closes ∷ es) = offered es

close-pipe : (s : Session) → pipe (close s).0 ≡ pipe s
unfolding close
close-pipe s = ground arith

pub enqueue-pipe : (n : SendNode) (s : Session) → pipe (enqueue n s) ≡ pipe s ++ n ∷ []
unfolding enqueue
enqueue-pipe n s = ground (arith, append_assoc s.sent s.send_que (n ∷ []))

pub completes-pipe :
    (order : ByteOrder) (s : Session) → Inv s → pipe (step order completes s) ≡ pipe s
unfolding step
completes-pipe order s v = elim (Driven-cases s.b_stop s.writing s.send_que v.driven) [
  | inl idle ↦ rw (idle, step)
  | inr (n, rest, w, q) ↦ elim (List-cases rest) [
    | inl last ↦ ground (arith, v, w, q, last, append_assoc s.sent (n ∷ []) rest)
    | inr (m, more, e) ↦ ground (arith, v, w, q, e, append_assoc s.sent (n ∷ []) rest)
  ]
]

pub fails-pipe : (order : ByteOrder) (s : Session) → pipe (step order fails s) ≡ pipe s
unfolding step
fails-pipe order s = ground arith

send-pipe :
    (order : ByteOrder) (msg : Bytes) (id : ℕ) (s : Session)
    → (pipe (send order msg (id % 65536) s) ≡ pipe s)
      ⊎ (pipe (send order msg (id % 65536) s)
          ≡ pipe s ++ frame_node msg (short_length msg) (id % 65536) ∷ [])
send-pipe order msg id s =
    rw (send_lem order msg (id % 65536) s (omega arith))
      (ground (arith, enqueue-pipe (frame_node msg (short_length msg) (id % 65536)) s))

pub closes-pipe : (order : ByteOrder) (s : Session) → pipe (step order closes s) ≡ pipe s
unfolding step
closes-pipe order s = close-pipe s

sends-pipe :
    (order : ByteOrder) (msg : Bytes) (id : ℕ) (s : Session)
    → (pipe (step order (sends msg id) s) ≡ pipe s)
      ⊎ (pipe (step order (sends msg id) s)
          ≡ pipe s ++ frame_node msg (short_length msg) (id % 65536) ∷ [])
unfolding step
sends-pipe order msg id s = send-pipe order msg id s

-- What the events have added to the pipe.
abbrev pub Added : List SendNode → List SendNode → List SendNode → Type 0
Added before after frames = (more : List SendNode) × (after ≡ before ++ more) × Sublistᴰ more frames

Added-kept : (p q r frames : List SendNode) → q ≡ p → Added q r frames → Added p r frames
Added-kept p q r frames e (more, f, sub) = (more, rw (← e) f, sub)

Added-dropped :
    (p q r : List SendNode) (n : SendNode) (frames : List SendNode)
    → q ≡ p
    → Added q r frames
    → Added p r (n ∷ frames)
Added-dropped p q r n frames e (more, f, sub) = (more, rw (← e) f, Sublistᴰ.cons sub)

Added-taken :
    (p q r : List SendNode) (n : SendNode) (frames : List SendNode)
    → q ≡ p ++ n ∷ []
    → Added q r frames
    → Added p r (n ∷ frames)
Added-taken p q r n frames e (more, f, sub) = (
  n ∷ more,
  f ∙ ap (λ x. x ++ more) e ∙ append_assoc p (n ∷ []) more,
  Sublistᴰ.cons-cons refl sub,
)

-- From a state with the invariant, through any events, what has gone out and what waits only grows at
-- its end, by frames of messages given to `Send`, each at most once and in the order of the calls;
-- the frame of a message is that of its first (length mod 65536) bytes.
pub run-Added :
    (order : ByteOrder) (es : List Event) (s : Session)
    → Inv s
    → Added (pipe s) (pipe (run order es s)) (offered es)
unfolding run
run-Added order [] s v = ([], sym (append-nil (pipe s)), Sublistᴰ.slnil)
run-Added order (sends msg id ∷ es) s v =
    let n = frame_node msg (short_length msg) (id % 65536) in
    let t = step order (sends msg id) s in
    let rest = run-Added order es t (step-Inv order (sends msg id) s v) in
    elim (sends-pipe order msg id s) [
      | inl dropped ↦ Added-dropped (pipe s) (pipe t) _ n (offered es) dropped rest
      | inr taken ↦ Added-taken (pipe s) (pipe t) _ n (offered es) taken rest
    ]
run-Added order (completes ∷ es) s v =
    Added-kept (pipe s) _ _ (offered es) (completes-pipe order s v)
      (run-Added order es (step order completes s) (step-Inv order completes s v))
run-Added order (fails ∷ es) s v =
    Added-kept (pipe s) _ _ (offered es) (fails-pipe order s)
      (run-Added order es (step order fails s) (step-Inv order fails s v))
run-Added order (closes ∷ es) s v =
    Added-kept (pipe s) _ _ (offered es) (closes-pipe order s)
      (run-Added order es (step order closes s) (step-Inv order closes s v))

-- One completed write of an open session sends the front of the queue.
completes-front :
    (order : ByteOrder) (s : Session) (n : SendNode) (q : List SendNode)
    → Inv s
    → s.b_stop ≡ false
    → s.send_que ≡ n ∷ q
    → let t = step order completes s in
      (t.send_que ≡ q) × (t.sent ≡ s.sent ++ n ∷ []) × (t.b_stop ≡ false)
unfolding step
completes-front order s n q v open_ e = elim (Driven-cases s.b_stop s.writing s.send_que v.driven) [
  | inl idle ↦ absurd (ground arith)
  | inr (m, rest, w, f) ↦ elim (List-cases q) [
    | inl last ↦ ground (arith, v, w, e, f, last)
    | inr (k, more, g) ↦ ground (arith, v, w, e, f, g)
  ]
]

-- From a state with the invariant, an open session sends everything that waits, in order, when as
-- many writes complete.
pub run-drained :
    (order : ByteOrder) (q : List SendNode) (s : Session)
    → Inv s
    → s.b_stop ≡ false
    → s.send_que ≡ q
    → let t = run order (map (λ _. completes) q) s in (t.send_que ≡ []) × (t.sent ≡ s.sent ++ q)
unfolding run
run-drained order [] s v open_ e = (e, sym (append-nil s.sent))
run-drained order (n ∷ q) s v open_ e =
    let (rest, out, still) = completes-front order s n q v open_ e in
    let (none_left, all) =
      run-drained order q (step order completes s) (step-Inv order completes s v) still rest in
    (none_left, all ∙ ap (λ x. x ++ q) out ∙ append_assoc s.sent (n ∷ []) q)
