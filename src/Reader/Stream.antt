-- ===== src/Reader/Stream.antt =====
-- The read loop over a stream of frames, such as the client's `SendMsg` and the server's
-- `SendNode` write.
use coroutine_server.Prelude.{
  ℕ, zero, suc, ◌+◌, ◌<◌, ◌≡◌, ap, Bool, false, List, [], ◌∷◌, ◌++◌, map, Bytes, arith, length,
  length-append, Option-cases, inl, inr,
}
use coroutine_server.Wire.{RecvNode}
use coroutine_server.Wire.Endian.{ByteOrder}
use coroutine_server.Wire.Frame.{frame}
use coroutine_server.Reader.Transport.{Input}
use coroutine_server.Reader.Rounds.{Accepted, accepted_node, read_message-posted}
use coroutine_server.Reader.{ended, thrown, closed, read_message, read_loop}

pub record Message : Type 0 where
  pub id : ℕ
  pub body : Bytes

abbrev pub stream : List Message → Bytes
stream [] = []
stream (m ∷ ms) = frame m.id m.body ++ stream ms

abbrev pub AllAccepted : List Message → Type 0
AllAccepted [] = Unit {0}
AllAccepted (m ∷ ms) = Accepted m.id m.body × AllAccepted ms

abbrev pub nodes : List Message → List RecvNode
nodes = map λ m. accepted_node m.id m.body

pub nothing_read : (head rest : Bytes) → ([] ≡ head ++ rest) × (length head ≡ 4) → ⊥
nothing_read head rest (e, l) = omega (arith, ap length e, length-append head rest)

module _ (order : ByteOrder) (input : Input) (stops : ℕ → Bool)
    (open_ : (k : ℕ) → stops k ≡ false) where
  empty_stream : read_message order input [] ≡ closed thrown
  unfolding read_message
  empty_stream = elim (Option-cases (input.async_read 4 [])) [
    | inl e ↦ rw (e, read_message)
    | inr ((head, rest), e) ↦ absurd (nothing_read head rest (input.read_full 4 [] head rest e))
  ]

  -- While the session is not stopped and there is fuel for one round more than there are messages, the
  -- frames of accepted messages are posted in order, each once and whole, and nothing else; then the
  -- loop ends on the end of the stream.
  pub read_loop-stream :
      (ms : List Message) (fuel k : ℕ)
      → AllAccepted ms
      → length ms < fuel
      → read_loop order input stops fuel k (stream ms) ≡ (nodes ms, ended thrown)
  unfolding read_loop
  read_loop-stream ms zero k ok h = absurd (omega arith)
  read_loop-stream [] (suc fuel) k ok h = ground (arith, open_ k, empty_stream)
  read_loop-stream (m ∷ ms) (suc fuel) k ok h = rw (
    open_ k,
    read_loop,
    read_message-posted order input m.id m.body (stream ms) ok.0,
    read_loop-stream ms fuel (k + 1) ok.1 (omega arith),
  )
