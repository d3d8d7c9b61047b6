-- ===== src/Client.antt =====
-- TestClient/TestClient.cpp, the parts that speak the protocol: the validation of names and
-- passwords, `SendMsg`, `RecvOneMessage` and one look of `WaitForResponse` at the received messages.
pub mod Peer
pub mod Inbox
pub mod State
pub mod Stream
pub mod Commands
pub mod Login
pub mod Main
mod Tests
use coroutine_server.Prelude.{
  ℕ, ◌+◌, ◌==◌, Bool, true, false, ◌||◌, Option, none, some, List, [], ◌∷◌, ◌++◌, Bytes, pos,
  signed, leb_ℤ, ltb_ℤ, ltb, to_short, if◌then◌else◌, length, take, drop, replicate, blit,
}
use coroutine_server.Const.{
  max_length, head_total_len, head_id_len, min_username_len, max_username_len, min_password_len,
  max_password_len,
}
use coroutine_server.Wire.Endian.{ByteOrder}
use coroutine_server.Reader.{header_field, to_size}
use coroutine_server.Reader.Transport.{Input}

-- `ValidateUsername`
unfoldable pub validate_username : Bytes → Bool
validate_username user =
    if ltb (length user) min_username_len || ltb max_username_len (length user) then false else true

-- `ValidatePassword`
unfoldable pub validate_password : Bytes → Bool
validate_password pass =
    if ltb (length pass) min_password_len || ltb max_password_len (length pass) then false else true

module _ (order : ByteOrder) where
  open order use {host_to_network_short, short_bytes}

  -- The buffer `send_data` after the three copies.
  unfoldable pub send_data : ℕ → Bytes → Bytes
  send_data msg_id json =
      let empty = replicate (max_length + head_total_len) 0 in
      let with_id = blit empty 0 (short_bytes (host_to_network_short msg_id)) in
      let with_len =
        blit with_id head_id_len (short_bytes (host_to_network_short (to_short (length json)))) in
      blit with_len head_total_len json

  -- `SendMsg` of a text: the bytes that it writes, or nothing if the text is too long.
  unfoldable pub send_msg : ℕ → Bytes → Option Bytes
  send_msg msg_id json =
      if ltb max_length (length json)
      then none
      else some (take (length json + head_total_len) (send_data msg_id json))

-- What `RecvOneMessage` returns: the message and the input left, or false.
pub data Received : Type 0 where
  failed : Received
  message : ℕ → Bytes → Bytes → Received

module _ (order : ByteOrder) (input : Input) where
  open input use {async_read}

  -- The second read; `body` has room for the 2048 bytes that the check allows.
  unfoldable pub recv_body : ℕ → ℕ → Bytes → Received
  recv_body msg_id body_len rest =
      if leb_ℤ (signed body_len) (pos 0) || ltb_ℤ (pos max_length) (signed body_len)
      then failed
      else elim (async_read (to_size (signed body_len)) rest) [
        | none ↦ failed
        | some (body, rest') ↦
            if length body == 0
            then failed
            else message msg_id
                (take (to_size (signed body_len)) (blit (replicate (max_length + 1) 0) 0 body))
                rest'
      ]

  -- `RecvOneMessage`; a read that throws is caught and makes it return false.
  unfoldable pub recv_one_message : Bytes → Received
  recv_one_message stream = elim (async_read head_total_len stream) [
    | none ↦ failed
    | some (head, rest) ↦
        if length head == 0
        then failed
        else recv_body (header_field order head) (header_field order (drop head_id_len head)) rest
  ]

-- One pass of `WaitForResponse` over the queue: the response, and the messages that stay.
unfoldable pub look :
    {Json : Type 0}
    → ℕ
    → List (ℕ × Json)
    → Option Json
    → List (ℕ × Json)
    → Option Json × List (ℕ × Json)
look expected [] result temp = (result, temp)
look expected ((id, json) ∷ queue) result temp =
    if id == expected
    then look expected queue (some json) temp
    else look expected queue result (temp ++ (id, json) ∷ [])
