-- ===== src/Reader/Transport.antt =====
-- What the read loop takes from Boost.Asio: `async_read` completes when the buffer is full, and
-- fails when the stream ends before. A stream is the bytes that are still to arrive.
use coroutine_server.Prelude.{
  ℕ, ◌≡◌, Option, none, some, ◌++◌, Bytes, arith, leb, if◌then◌else◌, length, take, drop,
  take-append-drop, length-take, take-append, drop-append, length-append,
}

pub record Input : Type 0 where
  pub async_read : ℕ → Bytes → Option (Bytes × Bytes)
  -- A read that completes has filled the buffer with the next bytes of the stream.
  pub read_full :
      (n : ℕ) (stream body rest : Bytes)
      → async_read n stream ≡ some (body, rest)
      → (stream ≡ body ++ rest) × (length body ≡ n)
  -- A read completes when the stream has enough bytes.
  pub read_enough :
      (body rest : Bytes) → async_read (length body) (body ++ rest) ≡ some (body, rest)

abbrev pub split_read : ℕ → Bytes → Option (Bytes × Bytes)
split_read n stream = if leb n (length stream) then some (take n stream, drop n stream) else none

pub split_read-full :
    (n : ℕ) (stream body rest : Bytes)
    → split_read n stream ≡ some (body, rest)
    → (stream ≡ body ++ rest) × (length body ≡ n)
split_read-full n stream body rest e =
    ground (arith, take-append-drop n stream, length-take n stream)

pub split_read-enough :
    (body rest : Bytes) → split_read (length body) (body ++ rest) ≡ some (body, rest)
split_read-enough body rest =
    ground (arith, take-append body rest, drop-append body rest, length-append body rest)

abbrev pub split_input : Input
split_input = record {
  async_read = split_read;
  read_full = split_read-full;
  read_enough = split_read-enough;
}
