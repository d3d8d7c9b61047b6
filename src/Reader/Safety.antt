-- ===== src/Reader/Safety.antt =====
-- What the read loop promises of any bytes that a peer sends: a posted message was a whole frame
-- within the limits, the rounds end, and only one body length escapes the checks.
use coroutine_server.Prelude.{
  ℕ, ◌+◌, ◌*◌, ◌≤◌, ◌<◌, ◌≡◌, refl, sym, ◌∙◌, [], ◌∷◌, ◌++◌, Bytes, arith, ltb, leb, ◌==◌, none,
  some, if◌then◌else◌, ◌||◌, length, Option-cases, inl, inr,
}
use mathlib.Core.Path.{subst₂, ap₂}
use coroutine_server.Const.{max_length}
use coroutine_server.Wire.{RecvNode, recv_node, msg_node}
use coroutine_server.Wire.Endian.{ByteOrder}
use coroutine_server.Wire.Frame.{field, frame}
use coroutine_server.Reader.Transport.{Input}
use coroutine_server.Reader.Rounds.{
  Accepted, accepted_node, read_body-posted, check_header-body, read_header-fields, blank_node,
  length-zeros,
}
use coroutine_server.Reader.{
  Round, posted, closed, undefined, read_body, check_header, read_header, invalid_id, body_too_long,
  peer_closed, thrown, read_message,
}

abbrev pub AreBytes : Bytes → Type 0
AreBytes [] = Unit {0}
AreBytes (x ∷ xs) = (x < 256) × AreBytes xs

pub AreBytes-left : (xs ys : Bytes) → AreBytes (xs ++ ys) → AreBytes xs
AreBytes-left [] ys h = tt
AreBytes-left (x ∷ xs) ys h = (h.0, AreBytes-left xs ys h.1)

-- What a posted message says of the bytes from which it was read.
abbrev pub Framed : Bytes → RecvNode → Bytes → Type 0
Framed stream n rest =
    (body : Bytes) × Accepted n.msg_id body
    × (n ≡ accepted_node n.msg_id body)
    × (stream ≡ frame n.msg_id body ++ rest)

-- A body of the announced length that was read.
abbrev BodyRead : ℕ → ℕ → Bytes → RecvNode → Bytes → Type 0
BodyRead id len stream n rest =
    (body : Bytes) × (1 ≤ length body)
    × (length body ≡ len)
    × (n ≡ accepted_node id body)
    × (stream ≡ body ++ rest)

module _ (order : ByteOrder) (input : Input) where
  read_body-exact :
      (id : ℕ) (body rest' : Bytes) (n : RecvNode) (rest : Bytes)
      → length body ≤ max_length
      → read_body order input (blank_node id (length body)) (body ++ rest') ≡ posted n rest
      → BodyRead id (length body) (body ++ rest') n rest
  unfolding read_body
  read_body-exact id [] rest' n rest h e = absurd (ground (arith, input.read_enough [] rest'))
  read_body-exact id (x ∷ xs) rest' n rest h e = (x ∷ xs, omega arith, refl, cc whole, cc whole)
    where
      whole :
          read_body order input (blank_node id (length (x ∷ xs))) ((x ∷ xs) ++ rest')
          ≡ posted (accepted_node id (x ∷ xs)) rest'
      whole = read_body-posted order input id (x ∷ xs) rest' (omega arith) h

  read_body_sound :
      (id len : ℕ) (stream : Bytes) (n : RecvNode) (rest : Bytes)
      → len ≤ max_length
      → read_body order input (blank_node id len) stream ≡ posted n rest
      → BodyRead id len stream n rest
  unfolding read_body
  read_body_sound id len stream n rest h e = elim (Option-cases (input.async_read len stream)) [
    | inl failed ↦ absurd (ground (arith, failed, length-zeros (len + 1)))
    | inr ((body, rest'), done) ↦
        let (split, size) = input.read_full len stream body rest' done in
        subst₂
          (λ l s.
            l ≤ max_length
            → read_body order input (blank_node id l) s ≡ posted n rest
            → BodyRead id l s n rest)
          size (sym split) (read_body-exact id body rest' n rest) h e
  ]

-- What a round does with a header that passed, by the bytes that follow it: a body of `len` bytes
-- that is there is posted whole, with a closing zero, and taken out of the stream; an empty one
-- counts as the end of the peer.
abbrev pub body_outcome : Input → ℕ → ℕ → Bytes → Round
body_outcome input id len rest = elim (input.async_read len rest) [
  | none ↦ closed thrown
  | some (body, rest') ↦
      if len == 0 then closed peer_closed else posted (accepted_node id body) rest'
]

-- The outcome of the checks by unsigned ranges: a body length above 32767 is negative as a `short`, so
-- it passes the limit; the buffer's constructor refuses it, but for 65535, which makes an empty buffer
-- and a read of 2 ^ 64 - 1 bytes into it.
abbrev pub header_outcome : Input → ℕ → ℕ → Bytes → Round
header_outcome input id len rest =
    if ltb id 1001 || ltb 9999 id
    then closed invalid_id
    else if leb len max_length
    then body_outcome input id len rest
    else if len == 65535
    then undefined
    else closed (if ltb len 32768 then body_too_long else thrown)

field-pair : (h l : ℕ) → h < 256 → l < 256 → field (h * 256 + l) ≡ h ∷ l ∷ []
field-pair h l p q = ap₂ (λ (x y : ℕ). x ∷ y ∷ []) (omega arith) (omega arith)

module _ (order : ByteOrder) (input : Input) where
  negative_length :
      (id len : ℕ) (rest : Bytes)
      → 32768 ≤ len
      → len < 65536
      → 1001 ≤ id
      → id ≤ 9999
      → check_header order input id len rest ≡ (if len == 65535 then undefined else closed thrown)
  unfolding check_header read_body recv_node msg_node
  negative_length id len rest h lt from to = ground arith

  read_posted :
      (id len : ℕ) (stream : Bytes) (x : ℕ) (xs rest : Bytes)
      → len ≤ max_length
      → length (x ∷ xs) ≡ len
      → stream ≡ (x ∷ xs) ++ rest
      → read_body order input (blank_node id len) stream ≡ posted (accepted_node id (x ∷ xs)) rest
  read_posted id len stream x xs rest h size split =
      rw (← size, split) (read_body-posted order input id (x ∷ xs) rest (omega arith) (omega arith))

  body-exact :
      (id len : ℕ) (stream body rest : Bytes)
      → len ≤ max_length
      → length body ≡ len
      → stream ≡ body ++ rest
      → input.async_read len stream ≡ some (body, rest)
      → read_body order input (blank_node id len) stream ≡ body_outcome input id len stream
  unfolding read_body
  body-exact id len stream [] rest h size split e = ground (arith, e, size, length-zeros (len + 1))
  body-exact id len stream (x ∷ xs) rest h size split e =
      ground (arith, e, size, split, read_posted id len stream x xs rest h size split)

  -- The read of the body for every length within the limit.
  read_body_lem :
      (id len : ℕ) (stream : Bytes)
      → len ≤ max_length
      → read_body order input (blank_node id len) stream ≡ body_outcome input id len stream
  unfolding read_body
  read_body_lem id len stream h = elim (Option-cases (input.async_read len stream)) [
    | inl failed ↦ ground (arith, failed, length-zeros (len + 1))
    | inr ((body, rest), e) ↦
        let (split, size) = input.read_full len stream body rest e in
        body-exact id len stream body rest h size split e
  ]

  -- For every id and length of 16 bits: an id outside 1001 to 9999 ends the session. Otherwise, for a
  -- length of 1 to 2048 so many bytes are read and posted as the body, with the id and a closing zero,
  -- or the session ends if they do not come; a length of 0 ends the session; any other length ends
  -- it too, but for 65535, which writes outside of the buffer.
  pub check_header_lem :
      (id len : ℕ) (rest : Bytes)
      → id < 65536
      → len < 65536
      → check_header order input id len rest ≡ header_outcome input id len rest
  unfolding check_header
  check_header_lem id len rest hi hl = ground (
    arith,
    check_header-body order input id len rest,
    read_body_lem id len rest,
    negative_length id len rest,
  )

  check_header-posted :
      (id len : ℕ) (stream : Bytes) (n : RecvNode) (rest : Bytes)
      → id < 65536
      → len < 65536
      → check_header order input id len stream ≡ posted n rest
      → (1001 ≤ id)
        × (id ≤ 9999)
        × (len ≤ max_length)
        × (read_body order input (blank_node id len) stream ≡ posted n rest)
  check_header-posted id len stream n rest hi hl e =
      ground
        (arith, check_header_lem id len stream hi hl, check_header-body order input id len stream)

  check_header-Framed :
      (id len : ℕ) (stream : Bytes) (n : RecvNode) (rest : Bytes)
      → id < 65536
      → len < 65536
      → check_header order input id len stream ≡ posted n rest
      → Framed (field id ++ field len ++ stream) n rest
  check_header-Framed id len stream n rest hi hl e =
      let (from, to, fits, read) = check_header-posted id len stream n rest hi hl e in
      let (body, some_body, size, node, split) =
        read_body_sound order input id len stream n rest fits read in
      rw (node, split)
        (
          body,
          record { id_from = from; id_to = to; nonempty = some_body; fits = omega arith },
          refl,
          rw size,
        )

  read_header-Framed :
      (a b c d : ℕ) (stream : Bytes) (n : RecvNode) (rest : Bytes)
      → AreBytes (a ∷ b ∷ c ∷ d ∷ [])
      → read_header order input (a ∷ b ∷ c ∷ d ∷ []) stream ≡ posted n rest
      → Framed (a ∷ b ∷ c ∷ d ∷ stream) n rest
  read_header-Framed a b c d stream n rest small =
      let id : ℕ = a * 256 + b in
      let len : ℕ = c * 256 + d in
      let hi : id < 65536 = omega arith in
      let hl : len < 65536 = omega arith in
      subst₂
        (λ p q.
          read_header order input (p ++ q) stream ≡ posted n rest
          → Framed (p ++ q ++ stream) n rest)
        (field-pair a b small.0 small.1.0) (field-pair c d small.1.1.0 small.1.1.1.0)
        (λ e.
          check_header-Framed id len stream n rest hi hl
            (sym (read_header-fields order input id len stream hi hl) ∙ e))

  read_head-Framed :
      (head stream : Bytes) (n : RecvNode) (rest : Bytes)
      → length head ≡ 4
      → AreBytes head
      → read_header order input head stream ≡ posted n rest
      → Framed (head ++ stream) n rest
  read_head-Framed (a ∷ b ∷ c ∷ d ∷ []) stream n rest l small e =
      read_header-Framed a b c d stream n rest small e
  read_head-Framed _ stream n rest l small e = absurd (omega arith)

  -- Whatever bytes arrive, a message is posted only for a whole frame at the front of the stream,
  -- with an id from 1001 to 9999 and a body of 1 to 2048 bytes; the node holds exactly that body,
  -- and exactly the frame is consumed.
  pub read_message-Framed :
      (stream : Bytes) (n : RecvNode) (rest : Bytes)
      → AreBytes stream
      → read_message order input stream ≡ posted n rest
      → Framed stream n rest
  unfolding read_message
  read_message-Framed stream n rest small e = elim (Option-cases (input.async_read 4 stream)) [
    | inl failed ↦ absurd (ground (arith, failed))
    | inr ((head, tail), done) ↦
        let (split, size) = input.read_full 4 stream head tail done in
        rw split (
          read_head-Framed head tail n rest size (AreBytes-left head tail (rw split at small))
            (ground (arith, done)))
  ]
