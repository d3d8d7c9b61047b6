-- ===== src/Wire.antt =====
-- CoroutineServer/MsgNode.h and MsgNode.cpp: the message buffers. A `short` is its bit pattern, a
-- number below 65536; `signed` of it is the value that the comparisons of the source see.
pub mod Endian
pub mod Frame
use mathlib.Core.Option
use coroutine_server.Prelude.{
  ℕ, zero, suc, ◌+◌, Option, none, some, [], ◌∷◌, Bytes, ℤ, pos, negsuc, signed, to_short, take,
  replicate, blit,
}
use coroutine_server.Const.{head_total_len, head_id_len}
use Endian.{ByteOrder}

pub record MsgNode : Type 0 where
  pub cur_len : ℕ
  pub total_len : ℕ
  pub bytes : Bytes

-- The size of `_data(max_len + 1, 0)`: below -1 the size converts to one over `max_size`, and the
-- vector's constructor throws `std::length_error`.
abbrev pub vector_size : ℤ → Option ℕ
vector_size (pos n) = some (n + 1)
vector_size (negsuc zero) = some 0
vector_size (negsuc (suc n)) = none

-- `MsgNode(max_len)`; `none` where the constructor throws.
unfoldable pub msg_node : ℕ → Option MsgNode
msg_node max_len =
    Option.map (λ n. record { cur_len = 0; total_len = max_len; bytes = replicate n 0 })
      (vector_size (signed max_len))

unfoldable pub clear : MsgNode → MsgNode
clear node = record node { cur_len = 0; bytes = blit node.bytes 0 (replicate node.total_len 0) }

pub record RecvNode : Type 0 where
  pub node : MsgNode
  pub open node use *
  pub msg_id : ℕ

unfoldable pub recv_node : ℕ → ℕ → Option RecvNode
unfolding msg_node
recv_node max_len id = Option.map (λ n. record { node = n; msg_id = id }) (msg_node max_len)

pub record SendNode : Type 0 where
  pub node : MsgNode
  pub open node use *
  pub msg_id : ℕ

module _ (order : ByteOrder) where
  open order use {host_to_network_short, short_bytes}

  -- The three copies of `SendNode`'s constructor.
  unfoldable pub fill : Bytes → ℕ → ℕ → Bytes → Bytes
  fill msg max_len id buffer =
      let with_id = blit buffer 0 (short_bytes (host_to_network_short id)) in
      let with_len = blit with_id head_id_len (short_bytes (host_to_network_short max_len)) in
      blit with_len head_total_len (take max_len msg)

  unfoldable pub send_node : Bytes → ℕ → ℕ → Option SendNode
  unfolding msg_node fill
  send_node msg max_len id =
      Option.map
        (λ n. record { node = record n { bytes = fill msg max_len id n.bytes }; msg_id = id })
        (msg_node (to_short (max_len + head_total_len)))

-- What `buffer(msgnode->_data.data(), msgnode->_total_len)` hands to `async_write`.
abbrev pub written : SendNode → Bytes
written n = take n.total_len n.bytes
