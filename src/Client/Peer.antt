-- ===== src/Client/Peer.antt =====
-- The client and the server as peers: what one writes, the other reads.
use native.Mathlib.Numerals.{towards_suc}
use native.Mathlib.Nat.{zero-add}
use coroutine_server.Prelude.{
  ltb, Bool-cases, if◌then◌else◌, ℕ, ◌+◌, ◌%◌, ◌≤◌, ◌<◌, ◌≡◌, refl, ◌&&◌, none, some, [], ◌∷◌, ◌++◌,
  Bytes, arith, length, take, drop, replicate, blit, take-append, List-cases, inl, inr,
}
use coroutine_server.Const.{max_length}
use coroutine_server.Wire.Endian.{ByteOrder}
use coroutine_server.Wire.Frame.{field, frame, four_sucs, take-four, take_of_length}
use coroutine_server.Reader.Transport.{Input}
use coroutine_server.Reader.Rounds.{header_field-field}
use coroutine_server.Logic.Accounts.{validate_credentials}
use coroutine_server.Client.{
  validate_username, validate_password, send_data, send_msg, message, recv_body, recv_one_message,
}

-- The client accepts a name and a password exactly when the server does.
pub validate_credentials-client :
    (user pass : Bytes)
    → (validate_username user && validate_password pass) ≡ validate_credentials user pass
unfolding validate_username validate_password validate_credentials
validate_credentials-client user pass = elim (List-cases user) [
  | inl e ↦ ground (arith, e)
  | inr (x, xs, e) ↦ elim (List-cases pass) [
    | inl p ↦ ground (arith, e, p)
    | inr (y, ys, p) ↦ ground (arith, e, p)
  ]
]

zeros-four : (n : ℕ) → replicate {A = ℕ} (n + 4) 0 ≡ 0 ∷ 0 ∷ 0 ∷ 0 ∷ replicate n 0
zeros-four n = simp towards_suc

module _ (order : ByteOrder) where
  open order use {host_to_network_short, short_bytes}

  copies :
      (id len : ℕ) (json tail : Bytes)
      → id < 65536
      → len < 65536
      → blit
          (blit
            (blit (0 ∷ 0 ∷ 0 ∷ 0 ∷ tail) 0 (short_bytes (host_to_network_short id)))
            2
            (short_bytes (host_to_network_short len)))
          4
          json
        ≡ field id ++ field len ++ (json ++ drop (length json) tail)
  unfolding blit
  copies id len json tail hi hl =
      rw (order.to_network id hi, order.to_network len hl, four_sucs (length json))

  send_data-frame :
      (id : ℕ) (json : Bytes)
      → id < 65536
      → length json < 65536
      → send_data order id json
        ≡ field id ++ field (length json) ++ (json ++ drop (length json) (replicate max_length 0))
  unfolding send_data
  send_data-frame id json hi hl =
      rw (zeros-four max_length, small)
        (copies id (length json) json (replicate max_length 0) hi hl)
    where
      small : length json % 65536 ≡ length json
      small = omega arith

  -- A request of at most 2048 bytes is written as its frame, whole; a longer one is not sent.
  pub send_msg_lem :
      (id : ℕ) (json : Bytes)
      → id < 65536
      → send_msg order id json
        ≡ (if ltb max_length (length json) then none else some (frame id json))
  unfolding send_msg
  send_msg_lem id json hi = elim (Bool-cases (ltb max_length (length json))) [
    | inl long ↦ ground (arith, long)
    | inr short ↦
        rw
          (
            short,
            send_data-frame id json hi (ground (arith, short)),
            take-four,
            take_of_length (length json) json (drop (length json) (replicate max_length 0)) refl,
          )
          refl
  ]

module _ (order : ByteOrder) (input : Input) where
  body_of :
      (n : ℕ) (body : Bytes)
      → length body ≤ n
      → take (length body) (blit (replicate n 0) 0 body) ≡ body
  unfolding blit
  body_of n body h = rw zero-add (take-append body (drop (length body) (replicate n 0)))

  recv_body-message :
      (id : ℕ) (body rest : Bytes)
      → 1 ≤ length body
      → length body ≤ max_length
      → recv_body order input id (length body) (body ++ rest) ≡ message id body rest
  unfolding recv_body
  recv_body-message id body rest some_body h =
      ground (arith, input.read_enough body rest, body_of (max_length + 1) body (omega arith))

  -- The client receives exactly the id and the body of a frame with a body of 1 to 2048 bytes, and
  -- leaves the bytes after it.
  pub recv_one_message-frame :
      (id : ℕ) (body rest : Bytes)
      → id < 65536
      → 1 ≤ length body
      → length body ≤ max_length
      → recv_one_message order input (frame id body ++ rest) ≡ message id body rest
  unfolding recv_one_message
  recv_one_message-frame id body rest hi some_body h = rw (
    input.read_enough (field id ++ field (length body)) (body ++ rest),
    recv_one_message,
    header_field-field order id (field (length body)) hi,
    header_field-field order (length body) [] (omega arith),
    recv_body-message id body rest some_body h,
  )
