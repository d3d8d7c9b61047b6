-- ===== src/Wire/Frame.antt =====
-- The frame that a `SendNode` puts on the wire: the two header fields in network byte order, then
-- the body.
use mathlib.Core.Option
use native.Mathlib.Numerals.{towards_suc}
use native.Mathlib.Nat.{add_assoc}
use coroutine_server.Prelude.{
  ℕ, suc, length-take, drop-replicate, ◌+◌, ◌/◌, ◌%◌, ◌<◌, ◌≤◌, ◌≡◌, List, [], ◌∷◌, ◌++◌, Bytes,
  arith, some, ap, ◌∙◌, Option, take, length, replicate, blit, drop, take-append,
}
use coroutine_server.Const.{max_length}
use coroutine_server.Wire.Endian.{ByteOrder}
use coroutine_server.Wire.{SendNode, msg_node, fill, send_node, written}

-- The two bytes of a 16-bit field in network byte order.
abbrev pub field : ℕ → Bytes
field w = (w / 256) ∷ (w % 256) ∷ []

-- A message on the wire.
abbrev pub frame : ℕ → Bytes → Bytes
frame id body = field id ++ field (length body) ++ body

pub msg_node-some :
    (n : ℕ)
    → n < 32768
    → msg_node n ≡ some (record { cur_len = 0; total_len = n; bytes = replicate (n + 1) 0 })
unfolding msg_node
msg_node-some n h = ground arith

pub four_sucs : (n : ℕ) → 4 + n ≡ suc (suc (suc (suc n)))
four_sucs n = omega arith

fill_header :
    (order : ByteOrder) (msg : Bytes) (id len : ℕ) (tail : Bytes)
    → id < 65536
    → len < 65536
    → fill order msg len id (0 ∷ 0 ∷ 0 ∷ 0 ∷ tail)
      ≡ field id ++ field len ++ (take len msg ++ drop (length (take len msg)) tail)
unfolding fill blit
fill_header order msg id len tail hi hl =
    rw (order.to_network id hi, order.to_network len hl, four_sucs (length (take len msg)))

pub length-take_le {ℓ} : {A : Type ℓ} (n : ℕ) (xs : List A) → n ≤ length xs → length (take n xs) ≡ n
length-take_le n xs h = omega (arith, length-take n xs)

pub drop-zeros : (n : ℕ) → drop n (replicate {A = ℕ} (n + 1) 0) ≡ 0 ∷ []
drop-zeros n = drop-replicate n 1 0

zeros : (n : ℕ) → replicate {A = ℕ} (n + 5) 0 ≡ 0 ∷ 0 ∷ 0 ∷ 0 ∷ replicate (n + 1) 0
zeros n = simp towards_suc

-- The node that `SendNode(msg, len, id)` builds: its buffer holds one byte more than it sends.
abbrev pub frame_node : Bytes → ℕ → ℕ → SendNode
frame_node msg len id = record {
  node = record {
    cur_len = 0;
    total_len = len + 4;
    bytes = field id ++ field len ++ (take len msg ++ 0 ∷ []);
  };
  msg_id = id;
}

pub take_of_length {ℓ} :
    {A : Type ℓ} (n : ℕ) (xs ys : List A) → length xs ≡ n → take n (xs ++ ys) ≡ xs
take_of_length n xs ys e = rw (← e) (take-append xs ys)

pub take-four :
    (n a b c d : ℕ) (xs : Bytes) → take (n + 4) (a ∷ b ∷ c ∷ d ∷ xs) ≡ a ∷ b ∷ c ∷ d ∷ take n xs
take-four n a b c d xs = simp towards_suc

-- What goes on the wire is the frame of the body.
pub written-frame_node :
    (msg : Bytes) (id len : ℕ)
    → len ≤ length msg
    → written (frame_node msg len id) ≡ frame id (take len msg)
written-frame_node msg id len hm = rw (
  take-four,
  take_of_length len (take len msg) (0 ∷ []) (length-take_le len msg hm),
  length-take_le len msg hm,
)

pub send_node-some :
    (order : ByteOrder) (msg : Bytes) (id len : ℕ)
    → id < 65536
    → len ≤ max_length
    → len ≤ length msg
    → send_node order msg len id ≡ some (frame_node msg len id)
unfolding send_node
send_node-some order msg id len hi hl hm = rw (
  short,
  msg_node-some (len + 4) (omega arith),
  add_assoc len 4 1,
  zeros len,
  fill_header order msg id len (replicate (len + 1) 0) hi (omega arith),
  length-take_le len msg hm,
  drop-zeros len,
)
  where
    short : (len + 4) % 65536 ≡ len + 4
    short = omega arith

-- A `SendNode` for a body of at most 2048 bytes holds the frame of the body: the bytes that go on the
-- wire are the id and the length, high byte first, and the first `len` bytes of the text.
pub written-send_node :
    (order : ByteOrder) (msg : Bytes) (id len : ℕ)
    → id < 65536
    → len ≤ max_length
    → len ≤ length msg
    → Option.map written (send_node order msg len id) ≡ some (frame id (take len msg))
written-send_node order msg id len hi hl hm =
    ap (λ (o : Option SendNode). Option.map written o) (send_node-some order msg id len hi hl hm)
    ∙ ap (λ (b : Bytes). some b) (written-frame_node msg id len hm)
