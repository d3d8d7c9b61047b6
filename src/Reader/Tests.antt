-- ===== src/Reader/Tests.antt =====
-- Runs of the read loop and the reader's theorems at concrete streams.
use coroutine_server.Prelude.{
  ℕ, ◌≡◌, refl, false, List, [], ◌∷◌, ◌++◌, Bytes, arith, codes, Bool, blit,
}
use coroutine_server.Wire.{recv_node}
use coroutine_server.Wire.Endian.{little_endian}
use coroutine_server.Wire.Frame.{frame}
use coroutine_server.Reader.Transport.{split_input}
use coroutine_server.Reader.Rounds.{accepted_node}
use coroutine_server.Reader.Stream.{Message, stream, AllAccepted, nodes, read_loop-stream}
use coroutine_server.Reader.Safety.{Framed, header_outcome, check_header_lem, read_message-Framed}
use coroutine_server.Reader.Loop.{Ran, read_loop-Ran}
use coroutine_server.Reader.{
  broken, ended, thrown, closed, peer_closed, check_header, read_message, read_loop,
}

abbrev never : ℕ → Bool
never _ = false

abbrev two_messages : List Message
two_messages =
    record { id = 2003; body = codes "{}" } ∷ record { id = 2010; body = codes "hello" } ∷ []

two_messages-AllAccepted : AllAccepted two_messages
two_messages-AllAccepted = omega arith

read_loop-stream_example :
    read_loop little_endian split_input never 3 0 (stream two_messages)
    ≡ (nodes two_messages, ended thrown)
read_loop-stream_example =
    read_loop-stream little_endian split_input never (λ _. refl) two_messages 3 0
      two_messages-AllAccepted (omega arith)

-- A frame with id 2003 and body length 65535.
abbrev bad_length : Bytes
bad_length = 7 ∷ 211 ∷ 255 ∷ 255 ∷ 65 ∷ []

bad_length-broken : read_loop little_endian split_input never 9 0 bad_length ≡ ([], broken)
unfolding read_loop read_message recv_node
bad_length-broken = refl

empty_body-closed : read_message little_endian split_input (frame 2005 []) ≡ closed peer_closed
unfolding read_message recv_node
empty_body-closed = refl

check_header_lem_example :
    check_header little_endian split_input 2003 65535 [] ≡ header_outcome split_input 2003 65535 []
check_header_lem_example =
    check_header_lem little_endian split_input 2003 65535 [] (omega arith) (omega arith)

read_message-Framed_example :
    Framed (frame 2010 (codes "hi") ++ 1 ∷ []) (accepted_node 2010 (codes "hi")) (1 ∷ [])
unfolding read_message recv_node blit
read_message-Framed_example =
    read_message-Framed little_endian split_input (frame 2010 (codes "hi") ++ 1 ∷ [])
      (accepted_node 2010 (codes "hi")) (1 ∷ []) (omega arith) refl

read_loop-Ran_example : Ran bad_length (read_loop little_endian split_input never 9 0 bad_length)
read_loop-Ran_example =
    read_loop-Ran little_endian split_input never 9 0 bad_length (omega arith) (omega arith)
