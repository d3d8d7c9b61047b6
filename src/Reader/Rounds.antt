-- ===== src/Reader/Rounds.antt =====
-- What one round of the read loop does with a frame, and what a posted message says of the stream.
use native.Mathlib.Nat.{zero-add}
use coroutine_server.Prelude.{
  ℕ, ◌+◌, ◌/◌, ◌%◌, ◌≤◌, ◌<◌, ◌≡◌, sym, ap, ◌∙◌, some, [], ◌∷◌, ◌++◌, Bytes, arith, length, drop,
  replicate, blit, append-nil, take-append, drop-append, length-append, length-replicate,
}
use coroutine_server.Const.{max_length}
use coroutine_server.Wire.{RecvNode, recv_node}
use coroutine_server.Wire.Endian.{ByteOrder}
use coroutine_server.Wire.Frame.{field, frame, msg_node-some, drop-zeros}
use coroutine_server.Reader.Transport.{Input}
use coroutine_server.Reader.{
  posted, header_field, received, read_body, check_header, read_header, read_message,
}

-- A message that the loop accepts.
pub record Accepted (id : ℕ) (body : Bytes) : Type 0 where
  pub id_from : 1001 ≤ id
  pub id_to : id ≤ 9999
  pub nonempty : 1 ≤ length body
  pub fits : length body ≤ max_length

-- The node that is posted for it.
abbrev pub accepted_node : ℕ → Bytes → RecvNode
accepted_node id body = record {
  node = record { cur_len = length body; total_len = length body; bytes = body ++ 0 ∷ [] };
  msg_id = id;
}

-- The node for a body of `len` bytes, before the read.
abbrev pub blank_node : ℕ → ℕ → RecvNode
blank_node id len = record {
  node = record { cur_len = 0; total_len = len; bytes = replicate (len + 1) 0 };
  msg_id = id;
}

pub recv_node-some : (len id : ℕ) → len < 32768 → recv_node len id ≡ some (blank_node id len)
unfolding recv_node
recv_node-some len id h = ground (arith, msg_node-some len h)

pub header_field-field :
    (order : ByteOrder) (w : ℕ) (rest : Bytes)
    → w < 65536
    → header_field order (field w ++ rest) ≡ w
unfolding header_field
header_field-field order w rest h =
    order.from_network (w / 256) (w % 256) (omega arith) (omega arith) ∙ omega arith

pub length-zeros : (n : ℕ) → length (replicate {A = ℕ} n 0) ≡ n
length-zeros n = length-replicate n 0

pub blit_zeros : (body : Bytes) → blit (replicate (length body + 1) 0) 0 body ≡ body ++ 0 ∷ []
unfolding blit
blit_zeros body = rw (zero-add, drop-zeros (length body))

pub drop_of_length : (n : ℕ) (xs : Bytes) → length xs ≡ n → drop n xs ≡ []
drop_of_length n xs e = rw (← e) (ap (drop (length xs)) (sym (append-nil xs)) ∙ drop-append xs [])

pub blit_end : (body : Bytes) → blit (body ++ 0 ∷ []) (length body) (0 ∷ []) ≡ body ++ 0 ∷ []
unfolding blit
blit_end body = rw (
  take-append body (0 ∷ []),
  drop_of_length (length body + 1) (body ++ 0 ∷ []) (length-append body (0 ∷ [])),
  append-nil,
)

pub read_body-posted :
    (order : ByteOrder) (input : Input) (id : ℕ) (body rest : Bytes)
    → 1 ≤ length body
    → length body ≤ max_length
    → read_body order input (blank_node id (length body)) (body ++ rest)
      ≡ posted (accepted_node id body) rest
unfolding read_body received
read_body-posted order input id body rest some_body h = ground (
  arith,
  input.read_enough body rest,
  blit_zeros body,
  blit_end body,
  length-zeros (length body + 1),
)

-- A header in range leads to the read of the body.
pub check_header-body :
    (order : ByteOrder) (input : Input) (id len : ℕ) (rest : Bytes)
    → 1001 ≤ id
    → id ≤ 9999
    → len ≤ max_length
    → check_header order input id len rest ≡ read_body order input (blank_node id len) rest
unfolding check_header
check_header-body order input id len rest from to h = ground (arith, recv_node-some len id)

pub read_header-fields :
    (order : ByteOrder) (input : Input) (id len : ℕ) (rest : Bytes)
    → id < 65536
    → len < 65536
    → read_header order input (field id ++ field len) rest ≡ check_header order input id len rest
unfolding read_header
read_header-fields order input id len rest hi hl =
    rw (header_field-field order id (field len) hi, header_field-field order len [] hl)

-- A frame of an accepted message is posted, and the rest of the stream is left.
pub read_message-posted :
    (order : ByteOrder) (input : Input) (id : ℕ) (body rest : Bytes)
    → Accepted id body
    → read_message order input (frame id body ++ rest) ≡ posted (accepted_node id body) rest
unfolding read_message
read_message-posted order input id body rest a = rw (
  input.read_enough (field id ++ field (length body)) (body ++ rest),
  read_message,
  read_header-fields order input id (length body) (body ++ rest) (omega arith) (omega arith),
  check_header-body order input id (length body) (body ++ rest) a.id_from a.id_to a.fits,
  read_body-posted order input id body rest a.nonempty a.fits,
)
