-- ===== src/Session/Writing.antt =====
-- Which write is outstanding: that of the oldest message that waits, through a close too, until a write
-- fails.
use coroutine_server.Prelude.{
  ◌%◌, ◌≤◌, ◌≡◌, Bool, true, false, ◌||◌, Option, none, some, List, [], ◌∷◌, arith, if◌then◌else◌,
  length, inl, inr, List-cases, Bool-cases, Option-cases,
}
use coroutine_server.Wire.{SendNode}
use coroutine_server.Wire.Endian.{ByteOrder}
use coroutine_server.Session.{
  Session, Event, sends, completes, fails, closes, enqueue, send, close, step, run,
}
use coroutine_server.Session.Queue.{Inv, step-Inv, run-Inv, send_lem}

abbrev pub first : List SendNode → Option SendNode
first [] = none
first (n ∷ _) = some n

abbrev has_write : Option SendNode → Bool
has_write none = false
has_write (some _) = true

-- Whether an event is the failure of an outstanding write.
abbrev fails_now : Event → Session → Bool
fails_now (sends msg id) s = false
fails_now completes s = false
fails_now fails s = has_write s.writing
fails_now closes s = false

-- Whether a write fails among the events.
unfoldable pub write_failed : ByteOrder → List Event → Session → Bool
write_failed order [] s = false
write_failed order (e ∷ es) s =
    let later = write_failed order es (step order e s) in fails_now e s || later

-- A session on which a write has failed is closed and writes nothing.
record Dead (s : Session) : Type 0 where
  stopped : s.b_stop ≡ true
  quiet : s.writing ≡ none

step-Dead : (order : ByteOrder) (e : Event) (s : Session) → Dead s → Dead (step order e s)
unfolding step send close
step-Dead order (sends msg id) s d =
    rw (send_lem order msg (id % 65536) s (omega arith)) (ground (arith, d))
step-Dead order completes s d = ground (arith, d)
step-Dead order fails s d = ground (arith, d)
step-Dead order closes s d = ground (arith, d)

run-Dead :
    (order : ByteOrder) (es : List Event) (s : Session) → Dead s → (run order es s).writing ≡ none
unfolding run
run-Dead order [] s d = d.quiet
run-Dead order (e ∷ es) s d = run-Dead order es (step order e s) (step-Dead order e s d)

fails-Dead :
    (order : ByteOrder) (s : Session) → has_write s.writing ≡ true → Dead (step order fails s)
unfolding step close
fails-Dead order s h = elim (Option-cases s.writing) [
  | inl nothing ↦ ground (arith, nothing)
  | inr (n, e) ↦ ground (arith, e)
]

step-writing :
    (order : ByteOrder) (e : Event) (s : Session)
    → Inv s
    → s.writing ≡ first s.send_que
    → fails_now e s ≡ false
    → (step order e s).writing ≡ first (step order e s).send_que
unfolding step close enqueue
step-writing order (sends msg id) s v w h = elim (List-cases s.send_que) [
  | inl e ↦ rw (send_lem order msg (id % 65536) s (omega arith)) (ground (arith, v.owner, w, e))
  | inr (n, q, e) ↦
      rw (send_lem order msg (id % 65536) s (omega arith)) (ground (arith, v.owner, w, e))
]
step-writing order completes s v w h = elim (List-cases s.send_que) [
  | inl e ↦ ground (arith, v.owner, w, e)
  | inr (n, q, e) ↦ elim (List-cases q) [
    | inl last ↦ ground (arith, v.owner, w, e, last)
    | inr (m, more, f) ↦ ground (arith, v.owner, w, e, f)
  ]
]
step-writing order fails s v w h = ground (arith, w, h)
step-writing order closes s v w h = ground (arith, w)

run_writing :
    (order : ByteOrder) (es : List Event) (s : Session)
    → Inv s
    → s.writing ≡ first s.send_que
    → (run order es s).writing
      ≡ (if write_failed order es s then none else first (run order es s).send_que)
unfolding run write_failed
run_writing order [] s v w = w
run_writing order (e ∷ es) s v w = elim (Bool-cases (fails_now e s)) [
  | inl failed ↦ ground (arith, failed, run-Dead order es (step order e s) (failed-Dead e failed))
  | inr fine ↦
      let t = step order e s in
      ground (
        arith,
        fine,
        run_writing order es t (step-Inv order e s v) (step-writing order e s v w fine),
      )
]
  where
    failed-Dead : (e : Event) → fails_now e s ≡ true → Dead (step order e s)
    failed-Dead (sends msg id) h = absurd (ground arith)
    failed-Dead completes h = absurd (ground arith)
    failed-Dead fails h = fails-Dead order s h
    failed-Dead closes h = absurd (ground arith)

-- From a state with the invariant in which the oldest message that waits, if there is one, is being
-- written, through any events, closes among them: at most 1001 messages wait, and the outstanding
-- write is that of the oldest message that waits, and there is none exactly if none waits, until an
-- outstanding write fails; from then on no write is outstanding.
pub run-writing :
    (order : ByteOrder) (es : List Event) (s : Session)
    → Inv s
    → s.writing ≡ first s.send_que
    → let t = run order es s in
      (length t.send_que ≤ 1001)
      × (t.writing ≡ (if write_failed order es s then none else first t.send_que))
run-writing order es s v w = ((run-Inv order es s v).bounded, run_writing order es s v w)
