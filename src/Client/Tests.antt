-- ===== src/Client/Tests.antt =====
-- The client at concrete texts.
use coroutine_server.Prelude.{ℕ, blit, ◌≡◌, refl, ◌++◌, List, [], ◌∷◌, Bytes, codes, arith}
use coroutine_server.Wire.Endian.{little_endian}
use coroutine_server.Reader.Transport.{split_input}
use coroutine_server.Wire.{send_node, msg_node, fill}
use coroutine_server.Wire.Frame.{frame_node}
use coroutine_server.Session.{
  Event, sends, completes, new_session, run, step, send, send_chars, enqueue, handle_write,
}
use coroutine_server.Client.State.{lost, incoming}
use coroutine_server.Client.Stream.{wire, messages_of, run-received}

abbrev inbox : List (ℕ × Bytes)
inbox = (2004, codes "old") ∷ (2006, codes "friends") ∷ (2004, codes "new") ∷ []

abbrev replies : List Event
replies =
    sends (codes "{}") 2004
    ∷ sends (codes "[]") 2014
    ∷ completes
    ∷ sends (codes "1") 2006
    ∷ completes
    ∷ []

sent_two :
    (run little_endian replies (new_session [])).sent
    ≡ frame_node (codes "{}") 2 2004 ∷ frame_node (codes "[]") 2 2014 ∷ []
unfolding run step new_session send send_chars enqueue send_node msg_node fill handle_write blit
sent_two = refl

run-received_example :
    let t = run little_endian replies (new_session []) in
    incoming little_endian split_input 3 (wire t.sent) ≡ messages_of t.sent ++ lost ∷ []
run-received_example =
    run-received little_endian split_input [] replies 3 (rw sent_two (omega arith))
