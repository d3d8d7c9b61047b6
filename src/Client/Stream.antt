-- ===== src/Client/Stream.antt =====
-- What a session of the server sends, as the client's receive thread gets it.
use coroutine_server.Prelude.{
  ℕ, zero, suc, ◌%◌, ◌≤◌, ◌<◌, ◌≡◌, refl, sym, ap, ◌∙◌, subst, Bool, true, false, ◌||◌, List, [],
  ◌∷◌, ◌++◌, Bytes, arith, length, take, drop, map, ltb, if◌then◌else◌, Option-cases, inl, inr,
}
use coroutine_server.Const.{max_length}
use coroutine_server.Wire.{SendNode, written}
use coroutine_server.Wire.Endian.{ByteOrder}
use coroutine_server.Wire.Frame.{frame, frame_node, written-frame_node, length-take_le}
use coroutine_server.Reader.Transport.{Input}
use coroutine_server.Reader.Stream.{nothing_read}
use coroutine_server.Session.{
  Session, new_session, Event, sends, completes, fails, closes, enqueue, step, run,
}
use coroutine_server.Session.Queue.{short_length, send_lem, Inv, step-Inv, new_session-Inv}
use coroutine_server.Session.Order.{pipe, enqueue-pipe, completes-pipe, fails-pipe, closes-pipe}
use coroutine_server.Client.{recv_one_message, failed}
use coroutine_server.Client.Peer.{recv_one_message-frame}
use coroutine_server.Client.State.{Incoming, lost, arrives, incoming}

-- The body that a node puts on the wire.
abbrev pub body_of : SendNode → Bytes
body_of n = drop 4 (written n)

-- The bytes of nodes one after the other, and the messages in them.
abbrev pub wire : List SendNode → Bytes
wire [] = []
wire (n ∷ ns) = written n ++ wire ns

abbrev pub messages_of : List SendNode → List Incoming
messages_of = map λ n. arrives n.msg_id (body_of n)

-- The node is a frame that the client can read.
record Whole (n : SendNode) : Type 0 where
  pub id : n.msg_id < 65536
  pub some_body : 1 ≤ length (body_of n)
  pub fits : length (body_of n) ≤ max_length
  pub framed : written n ≡ frame n.msg_id (body_of n)

abbrev AllWhole : List SendNode → Type 0
AllWhole [] = Unit {0}
AllWhole (n ∷ ns) = Whole n × AllWhole ns

append-AllWhole :
    (ns : List SendNode) (n : SendNode) → AllWhole ns → Whole n → AllWhole (ns ++ n ∷ [])
append-AllWhole [] n h w = (w, tt)
append-AllWhole (m ∷ ns) n h w = (h.0, append-AllWhole ns n h.1 w)

front-AllWhole : (ns ms : List SendNode) → AllWhole (ns ++ ms) → AllWhole ns
front-AllWhole [] ms h = tt
front-AllWhole (n ∷ ns) ms h = (h.0, front-AllWhole ns ms h.1)

frame_node-Whole :
    (msg : Bytes) (len id : ℕ)
    → id < 65536
    → 1 ≤ len
    → len ≤ max_length
    → len ≤ length msg
    → Whole (frame_node msg len id)
frame_node-Whole msg len id hi some_body fits enough =
    let e = written-frame_node msg id len enough in
    let size = length-take_le len msg enough in
    let same : drop 4 (written (frame_node msg len id)) ≡ take len msg =
      ap (λ (b : Bytes). drop 4 b) e in
    record {
      id = hi;
      some_body = subst (λ (b : Bytes). 1 ≤ length b) (sym same) (omega (arith, size));
      fits = subst (λ (b : Bytes). length b ≤ max_length) (sym same) (omega (arith, size));
      framed = e ∙ ap (λ (b : Bytes). frame id b) (sym same);
    }

module _ (order : ByteOrder) where
  sends-AllWhole :
      (msg : Bytes) (id : ℕ) (s : Session)
      → AllWhole (pipe s)
      → AllWhole (pipe (step order (sends msg id) s))
  unfolding step
  sends-AllWhole msg id s h = rw (send_lem order msg (id % 65536) s (omega arith)) (
      either
        (s.b_stop
          || ltb (short_length msg) 1
          || ltb max_length (short_length msg)
          || ltb 1000 (length s.send_que))
        refl)
    where
      n : SendNode
      n = frame_node msg (short_length msg) (id % 65536)

      either :
          (b : Bool)
          → (s.b_stop
              || ltb (short_length msg) 1
              || ltb max_length (short_length msg)
              || ltb 1000 (length s.send_que))
            ≡ b
          → AllWhole (pipe (if b then s else enqueue n s))
      either true e = h
      either false e = subst AllWhole (sym (enqueue-pipe n s)) (
          append-AllWhole (pipe s) n h (
            frame_node-Whole msg (short_length msg) (id % 65536) (omega arith) (ground (arith, e))
              (ground (arith, e)) (omega arith)))

  step-AllWhole :
      (e : Event) (s : Session) → Inv s → AllWhole (pipe s) → AllWhole (pipe (step order e s))
  step-AllWhole (sends msg id) s v h = sends-AllWhole msg id s h
  step-AllWhole completes s v h = subst AllWhole (sym (completes-pipe order s v)) h
  step-AllWhole fails s v h = subst AllWhole (sym (fails-pipe order s)) h
  step-AllWhole closes s v h = subst AllWhole (sym (closes-pipe order s)) h

  run-AllWhole :
      (es : List Event) (s : Session) → Inv s → AllWhole (pipe s) → AllWhole (pipe (run order es s))
  unfolding run
  run-AllWhole [] s v h = h
  run-AllWhole (e ∷ es) s v h =
      run-AllWhole es (step order e s) (step-Inv order e s v) (step-AllWhole e s v h)

  module _ (input : Input) where
    recv_nothing : recv_one_message order input [] ≡ failed
    unfolding recv_one_message
    recv_nothing = elim (Option-cases (input.async_read 4 [])) [
      | inl e ↦ rw (e, recv_one_message)
      | inr ((head, rest), e) ↦ absurd (nothing_read head rest (input.read_full 4 [] head rest e))
    ]

    incoming-wire :
        (ns : List SendNode) (fuel : ℕ)
        → AllWhole ns
        → length ns < fuel
        → incoming order input fuel (wire ns) ≡ messages_of ns ++ lost ∷ []
    unfolding incoming
    incoming-wire ns zero h f = absurd (omega arith)
    incoming-wire [] (suc fuel) h f = ground (arith, recv_nothing)
    incoming-wire (n ∷ ns) (suc fuel) h f = ground (
      arith,
      h.0.framed,
      recv_one_message-frame order input n.msg_id (body_of n) (wire ns) h.0.id h.0.some_body
          h.0.fits,
      incoming-wire ns fuel h.1 (omega arith),
    )

    new_session-AllWhole : (uuid : Bytes) → AllWhole (pipe (new_session uuid))
    unfolding new_session
    new_session-AllWhole uuid = tt

    -- Through any events of a session, what it has sent is received by the client, with fuel for one
    -- call more than there are messages: each message once and in order, with its id and its whole
    -- body, and nothing else, until the stream ends.
    pub run-received :
        (uuid : Bytes) (es : List Event) (fuel : ℕ)
        → length (run order es (new_session uuid)).sent < fuel
        → let t = run order es (new_session uuid) in
          incoming order input fuel (wire t.sent) ≡ messages_of t.sent ++ lost ∷ []
    run-received uuid es fuel enough =
        let t = run order es (new_session uuid) in
        incoming-wire t.sent fuel
          (front-AllWhole t.sent t.send_que
            (run-AllWhole es (new_session uuid) (new_session-Inv uuid) (new_session-AllWhole uuid)))
          enough
