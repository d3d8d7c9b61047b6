-- ===== src/Reader.antt =====
-- The read loop of `CSession::Start` (CoroutineServer/CSession.cpp), over the bytes that the peer
-- sends before its connection ends. `Transport` is Boost.Asio's `async_read`.
pub mod Transport
pub mod Rounds
pub mod Stream
pub mod Safety
pub mod Loop
mod Tests
use coroutine_server.Prelude.{
  ℕ, zero, suc, ◌+◌, ◌-◌, ◌^◌, Bool, true, false, ◌||◌, Option, none, some, List, [], ◌∷◌, ◌++◌,
  Bytes, ℤ, pos, negsuc, signed, ltb_ℤ, leb, ◌==◌, if◌then◌else◌, length, take, drop, blit,
}
use coroutine_server.Const.{max_length, head_total_len, msg_hello_world, msg_id_last}
use coroutine_server.Wire.{MsgNode, RecvNode, recv_node}
use coroutine_server.Wire.Endian.{ByteOrder}
use Transport.{Input}

-- Why the loop called `Close` and `ClearSession` and ended.
pub data Reason : Type 0 where
  peer_closed invalid_id body_too_long thrown : Reason

-- One round of the loop: a message posted and the input left, the end of the session, or a write
-- outside of the node's buffer, after which C++ promises nothing.
pub data Round : Type 0 where
  posted : RecvNode → Bytes → Round
  closed : Reason → Round
  undefined : Round

-- The conversion of a `short` to `std::size_t`.
abbrev pub to_size : ℤ → ℕ
to_size (pos n) = n
to_size (negsuc n) = 2 ^ 64 - 1 - n

-- `memcpy` of two bytes of the header and `network_to_host_short`.
pub header_field : ByteOrder → Bytes → ℕ
header_field order (a ∷ b ∷ _) = order.network_to_host_short (order.bytes_short a b)
header_field order _ = 0

-- `_data[_total_len] = '\0'; _cur_len = _total_len;` after the body was read into `_data`.
pub received : RecvNode → Bytes → RecvNode
received n body = record n {
  node = record n.node {
    cur_len = n.total_len;
    bytes = blit (blit n.bytes 0 body) (to_size (signed n.total_len)) (0 ∷ []);
  };
}

-- How the loop ended; `running` if the fuel ran out first.
pub data End : Type 0 where
  running stopped broken : End
  ended : Reason → End

module _ (order : ByteOrder) (input : Input) where
  open input use {async_read}

  -- The second read of a round, into the node for the body.
  unfoldable pub read_body : RecvNode → Bytes → Round
  unfolding received
  read_body n rest =
      let size = to_size (signed n.total_len) in
      if leb (length n.bytes) size then undefined else elim (async_read size rest) [
        | none ↦ closed thrown
        | some (body, rest') ↦
            if length body == 0 then closed peer_closed else posted (received n body) rest'
      ]

  -- The checks on the two header fields, in the source's order.
  unfoldable pub check_header : ℕ → ℕ → Bytes → Round
  unfolding read_body
  check_header id len rest =
      if ltb_ℤ (signed id) (pos msg_hello_world) || ltb_ℤ (pos msg_id_last) (signed id)
      then closed invalid_id
      else if ltb_ℤ (pos max_length) (signed len)
      then closed body_too_long
      else elim (recv_node len id) [ none ↦ closed thrown | some n ↦ read_body n rest ]

  unfoldable pub read_header : Bytes → Bytes → Round
  unfolding check_header header_field
  read_header head rest =
      check_header (header_field order head) (header_field order (drop 2 head)) rest

  unfoldable pub read_message : Bytes → Round
  unfolding read_header
  read_message stream = elim (async_read head_total_len stream) [
    | none ↦ closed thrown
    | some (head, rest) ↦ if length head == 0 then closed peer_closed else read_header head rest
  ]

  -- `for (; !_b_stop;)`: `stops k` is what round `k` reads from `_b_stop`. The result is the
  -- messages that were posted, in order, and how the loop ended.
  unfoldable pub read_loop : (ℕ → Bool) → ℕ → ℕ → Bytes → List RecvNode × End
  read_loop stops zero k stream = ([], running)
  read_loop stops (suc fuel) k stream = elim (stops k) [
    | true ↦ ([], stopped)
    | false ↦ elim (read_message stream) [
      | posted n rest ↦ let (ns, e) = read_loop stops fuel (k + 1) rest in (n ∷ ns, e)
      | closed r ↦ ([], ended r)
      | undefined ↦ ([], broken)
    ]
  ]
