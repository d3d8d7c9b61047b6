-- ===== src/Client/Main/Sent.antt =====
-- What the client's `main` writes on a connection, and the server's read loop on it.
use coroutine_server.Prelude.{
  ℕ, ◌≡◌, ◌<◌, refl, ap, ◌∙◌, sym, Bool, false, List, [], ◌∷◌, ◌++◌, Bytes, length, append_assoc,
  append-nil,
}
use coroutine_server.Wire.Endian.{ByteOrder}
use coroutine_server.Wire.Frame.{frame}
use coroutine_server.Reader.{ended, thrown, read_loop}
use coroutine_server.Reader.Transport.{Input}
use coroutine_server.Reader.Rounds.{Accepted}
use coroutine_server.Reader.Stream.{Message, stream, AllAccepted, nodes, read_loop-stream}
use coroutine_server.Client.State.{ClientJson}
use coroutine_server.Client.State
use coroutine_server.Client.Main.{Turn, goes_on, new_client, main_loop}
use coroutine_server.Client.Main.Kept.{Kept}
use coroutine_server.Client.Main.Invariant.{main_loop-kept}

-- Bytes that are the frames of messages which the server accepts.
abbrev Frames : Bytes → Type 0
Frames bytes = (ms : List Message) × AllAccepted ms × (bytes ≡ stream ms)

add_frame :
    (ms : List Message) (id : ℕ) (body : Bytes)
    → AllAccepted ms
    → Accepted id body
    → let longer = ms ++ record { id = id; body = body } ∷ [] in
      AllAccepted longer × (stream ms ++ frame id body ≡ stream longer)
add_frame [] id body h a = ((a, tt), sym (append-nil (frame id body)))
add_frame (m ∷ ms) id body h a =
    let (all, e) = add_frame ms id body h.1 a in
    (
      (h.0, all),
      append_assoc (frame m.id m.body) (stream ms) (frame id body)
          ∙ ap (λ (s : Bytes). frame m.id m.body ++ s) e,
    )

module _ {Json : Type 0} (lib : ClientJson Json) (order : ByteOrder) where
  Frames-Kept : Kept lib order λ q s. Frames s
  Frames-Kept = record {
    fresh = ([], tt, refl);
    queued = λ id json q s e h. h;
    framed = λ id body q s a (ms, all, e).
        let (longer, e') = add_frame ms id body all a in
        (
          ms ++ record { id = id; body = body } ∷ [],
          longer,
          ap (λ (b : Bytes). b ++ frame id body) e ∙ e',
        );
    looked = λ id q s h. h;
  }

  -- After any turns of the client's `main` that do not end it, with whatever is typed and received,
  -- and writes that succeed or fail, the bytes of the writes that succeeded on the present
  -- connection are frames of messages of which the server's read loop, if it is not stopped and has
  -- fuel for one round more than there are messages, posts each once, in order and whole, and
  -- nothing else, to end only at the end of the stream.
  pub main_loop-read :
      (input : Input) (stops : ℕ → Bool) (ts : List Turn) (c : State.Client Json)
      → ((k : ℕ) → stops k ≡ false)
      → main_loop lib order ts new_client ≡ goes_on c
      → (ms : List Message) × AllAccepted ms
        × ((fuel k : ℕ)
            → length ms < fuel
            → read_loop order input stops fuel k c.sent ≡ (nodes ms, ended thrown))
  main_loop-read input stops ts c open_ e =
      let (ms, all, same) = main_loop-kept lib order (λ q s. Frames s) Frames-Kept ts c e in
      (
        ms,
        all,
        λ fuel k enough.
            ap (λ (s : Bytes). read_loop order input stops fuel k s) same
            ∙ read_loop-stream order input stops open_ ms fuel k all enough,
      )
