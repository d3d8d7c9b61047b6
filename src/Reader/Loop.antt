-- ===== src/Reader/Loop.antt =====
-- The read loop over arbitrary bytes: it ends, and it posts exactly a prefix of whole frames.
use coroutine_server.Prelude.{
  ℕ, zero, suc, ◌+◌, ◌<◌, ◌≡◌, ◌≢◌, refl, sym, ap, ◌∙◌, Bool, List, [], ◌∷◌, ◌++◌, Bytes, arith,
  length, append_assoc, subst, Bool-cases, inl, inr, ◌⊎◌, length-append,
}
use coroutine_server.Wire.{RecvNode}
use coroutine_server.Wire.Endian.{ByteOrder}
use coroutine_server.Wire.Frame.{frame}
use coroutine_server.Reader.Transport.{Input}
use coroutine_server.Reader.Stream.{Message, stream, AllAccepted, nodes}
use coroutine_server.Reader.Safety.{AreBytes, Framed, read_message-Framed}
use coroutine_server.Reader.{
  End, running, stopped, broken, ended, Reason, Round, posted, closed, undefined, read_message,
  read_loop,
}

AreBytes-right : (xs ys : Bytes) → AreBytes (xs ++ ys) → AreBytes ys
AreBytes-right [] ys h = h
AreBytes-right (x ∷ xs) ys h = AreBytes-right xs ys h.1

Round-cases :
    (r : Round)
    → ((n : RecvNode) × (rest : Bytes) × (r ≡ posted n rest))
      ⊎ (((w : Reason) × (r ≡ closed w)) ⊎ (r ≡ undefined))
Round-cases (posted n rest) = inl (n, rest, refl)
Round-cases (closed w) = inr (inl (w, refl))
Round-cases undefined = inr (inr refl)

-- What a run of the loop from `bytes` has done.
pub record Ran (bytes : Bytes) (result : List RecvNode × End) : Type 0 where
  pub messages : List Message
  pub left : Bytes
  pub accepted : AllAccepted messages
  pub posts : result.0 ≡ nodes messages
  pub prefix : bytes ≡ stream messages ++ left
  pub over : result.1 ≢ running

Ran-end : (bytes : Bytes) (e : End) → e ≢ running → Ran bytes ([], e)
Ran-end bytes e over = record {
  messages = [];
  left = bytes;
  accepted = tt;
  posts = refl;
  prefix = refl;
  over = over;
}

module _ (order : ByteOrder) (input : Input) (stops : ℕ → Bool) where
  Ran-next :
      (bytes rest : Bytes) (n : RecvNode) (result : List RecvNode × End)
      → Framed bytes n rest
      → Ran rest result
      → Ran bytes (n ∷ result.0, result.1)
  Ran-next bytes rest n result (body, ok, node, split) r = record {
    messages = record { id = n.msg_id; body = body } ∷ r.messages;
    left = r.left;
    accepted = (ok, r.accepted);
    posts = cc (node, r.posts);
    prefix =
        split
        ∙ ap (◌++◌ (frame n.msg_id body)) r.prefix
        ∙ sym (append_assoc (frame n.msg_id body) (stream r.messages) r.left);
    over = r.over;
  }

  shorter : (bytes rest : Bytes) (n : RecvNode) → Framed bytes n rest → length rest < length bytes
  shorter bytes rest n (body, ok, node, split) =
      omega (arith, ap length split, length-append body rest)

  -- On any bytes, with one round more than there are bytes, the loop comes to an end; what it has
  -- posted is the accepted messages whose frames make up the front of the stream, in order.
  pub read_loop-Ran :
      (fuel k : ℕ) (bytes : Bytes)
      → AreBytes bytes
      → length bytes < fuel
      → Ran bytes (read_loop order input stops fuel k bytes)
  unfolding read_loop
  read_loop-Ran zero k bytes small h = absurd (omega arith)
  read_loop-Ran (suc fuel) k bytes small h = elim (Bool-cases (stops k)) [
    | inl stop ↦ rw (stop, read_loop) (Ran-end bytes stopped (λ e. cc))
    | inr go ↦ elim (Round-cases (read_message order input bytes)) [
      | inl (n, rest, e) ↦
          let f = read_message-Framed order input bytes n rest small e in
          rw (go, read_loop, e)
            (Ran-next bytes rest n (read_loop order input stops fuel (k + 1) rest) f (
              read_loop-Ran fuel (k + 1) rest
                (AreBytes-right (frame n.msg_id f.0) rest (subst AreBytes f.3 small))
                (omega (arith, shorter bytes rest n f))))
      | inr (inl (w, e)) ↦ rw (go, read_loop, e) (Ran-end bytes (ended w) (λ q. cc))
      | inr (inr e) ↦ rw (go, read_loop, e) (Ran-end bytes broken (λ q. cc))
    ]
  ]
