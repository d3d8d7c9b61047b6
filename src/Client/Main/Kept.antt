-- ===== src/Client/Main/Kept.antt =====
-- What holds of the received messages and of the bytes written on the connection through every turn of
-- the client's `main`.
use coroutine_server.Prelude.{
  ap, ℕ, ◌≡◌, ◌≤◌, refl, Bool, true, false, Option, none, some, List, [], ◌∷◌, ◌++◌, Bytes, length,
  arith, subst, sym, ltb, ◌&&◌, not, if◌then◌else◌,
}
use coroutine_server.Const.{max_length}
use coroutine_server.Wire.Endian.{ByteOrder}
use coroutine_server.Wire.Frame.{frame}
use coroutine_server.Reader.Rounds.{Accepted}
use coroutine_server.Logic.Monad.{Result, ok, throw}
use coroutine_server.Logic.Json.{Fields}
use coroutine_server.Client.{look, send_msg}
use coroutine_server.Client.Peer.{send_msg_lem}
use coroutine_server.Client.State.{
  ClientJson, Client, Incoming, lost, arrives, Wake, timed_out, notified, Waiting, response, still,
  disconnected, is_push, recv_round, recv_thread, send_request, wait_for,
}

-- A predicate of all results of a test, or of a call that may throw, or of a wait.
pub if-all : {A : Type 0} (Q : A → Type 0) (b : Bool) (x y : A) → Q x → Q y → Q (if b then x else y)
if-all Q true x y h k = h
if-all Q false x y h k = k

-- It holds of a client.
abbrev pub Holds : {Json : Type 0} → (List (ℕ × Json) → Bytes → Type 0) → Client Json → Type 0
Holds P c = P c.recv_queue c.sent

module _ {Json : Type 0} (lib : ClientJson Json) (order : ByteOrder) where
  -- A property of the queue and of the written bytes that each change of them keeps.
  pub record Kept (P : List (ℕ × Json) → Bytes → Type 0) : Type 0 where
    pub fresh : P [] []
    pub queued :
        (id : ℕ) (json : Json) (q : List (ℕ × Json)) (s : Bytes)
        → is_push lib order id json ≡ false
        → P q s
        → P (q ++ (id, json) ∷ []) s
    pub framed :
        (id : ℕ) (body : Bytes) (q : List (ℕ × Json)) (s : Bytes)
        → Accepted id body
        → P q s
        → P q (s ++ frame id body)
    pub looked : (id : ℕ) (q : List (ℕ × Json)) (s : Bytes) → P q s → P (look id q none []).1 s

  -- A text that has bytes, if there is one.
  abbrev pub Some : Result Bytes → Type 0
  Some (throw what) = Unit {0}
  Some (ok json) = 1 ≤ length json

  pub dump-Some : (f : Fields) → Some (lib.dump f)
  dump-Some f = of (lib.dump f) (lib.dump_some f)
    where
      of : (r : Result Bytes) → ((json : Bytes) → r ≡ ok json → 1 ≤ length json) → Some r
      of (throw what) h = tt
      of (ok json) h = h json refl

  module _ (P : List (ℕ × Json) → Bytes → Type 0) (kept : Kept P) where
    recv_round-Holds :
        (m : Incoming) (c : Client Json) → Holds P c → Holds P (recv_round lib order m c)
    unfolding recv_round
    recv_round-Holds lost c h = h
    recv_round-Holds (arrives id body) c h = of (lib.parse body)
      where
        queue_if :
            (json : Json) (b : Bool)
            → is_push lib order id json ≡ b
            → Holds P (if b then c else record c { recv_queue = c.recv_queue ++ (id, json) ∷ [] })
        queue_if json true e = h
        queue_if json false e = kept.queued id json c.recv_queue c.sent e h

        of :
            (parsed : Option Json)
            → Holds P (elim parsed [
              | none ↦ c
              | some json ↦
                  if is_push lib order id json
                  then c
                  else record c { recv_queue = c.recv_queue ++ (id, json) ∷ [] }
            ])
        of none = h
        of (some json) = queue_if json (is_push lib order id json) refl

    pub recv_thread-Holds :
        (ms : List Incoming) (c : Client Json) → Holds P c → Holds P (recv_thread lib order ms c)
    unfolding recv_thread
    recv_thread-Holds [] c h = h
    recv_thread-Holds (m ∷ ms) c h = recv_thread-Holds ms _ (step (c.receiving && not c.stop_recv))
      where
        step : (b : Bool) → Holds P (if b then recv_round lib order m c else c)
        step true = recv_round-Holds m c h
        step false = h

    pub send_request-Holds :
        (writes : Bool) (id : ℕ) (body : Result Bytes) (c : Client Json)
        → 1001 ≤ id
        → id ≤ 9999
        → Some body
        → Holds P c
        → Holds P (send_request lib order writes id body c).1
    unfolding send_request
    send_request-Holds writes id (throw what) c from to some_body h = h
    send_request-Holds writes id (ok json) c from to some_body h =
        sends (send_msg order id json) (ltb max_length (length json))
          (send_msg_lem order id json (omega arith)) refl
      where
        written :
            (b : Bool) (bytes : Bytes)
            → bytes ≡ frame id json
            → length json ≤ max_length
            → let result : Bool × Client Json =
                if b
                then (true, record c { sent = c.sent ++ bytes })
                else (false, disconnected lib order c) in
              Holds P result.1
        written false bytes e fits = h
        written true bytes e fits =
            subst (λ s. P c.recv_queue (c.sent ++ s)) (sym e)
              (kept.framed id json c.recv_queue c.sent
                (record { id_from = from; id_to = to; nonempty = some_body; fits = fits }) h)

        sends :
            (m : Option Bytes) (long : Bool)
            → m ≡ (if long then none else some (frame id json))
            → ltb max_length (length json) ≡ long
            → let result : Bool × Client Json = elim m [
              | none ↦ (false, c)
              | some bytes ↦
                  if writes
                  then (true, record c { sent = c.sent ++ bytes })
                  else (false, disconnected lib order c)
            ] in
              Holds P result.1
        sends none long e l = h
        sends (some bytes) true e l =
            absurd
              (omega (arith, ap {B = ℕ} (λ (o : Option Bytes). elim o [ none ↦ 0 | some _ ↦ 1 ]) e))
        sends (some bytes) false e l =
            written writes bytes (ap (λ (o : Option Bytes). elim o [ none ↦ [] | some b ↦ b ]) e)
              (ground (arith, l))

    -- A test chooses between two results; a response that is found ends the wait.
    choice-Holds :
        {A : Type 0} (b : Bool) (x y : A × Client Json)
        → Holds P x.1
        → Holds P y.1
        → Holds P (if b then x else y).1
    choice-Holds true x y h k = h
    choice-Holds false x y h k = k

    found-Holds :
        (found : Option Json) (c : Client Json) (later : Waiting Json × Client Json)
        → Holds P c
        → Holds P later.1
        → let result : Waiting Json × Client Json = elim found [
          | some json ↦ (response json, c)
          | none ↦ later
        ] in
          Holds P result.1
    found-Holds (some json) c later h k = h
    found-Holds none c later h k = k

    pub wait_for-Holds :
        (id : ℕ) (wakes : List Wake) (c : Client Json)
        → Holds P c
        → Holds P (wait_for lib order id wakes c).1
    unfolding wait_for
    wait_for-Holds id [] c h =
        let (found, q) = look id c.recv_queue none [] in
        let c' = record c { recv_queue = q } in
        let stays = kept.looked id c.recv_queue c.sent h in
        found-Holds found c' _ stays
          (choice-Holds c.connected (still, c') (response lib.null, c') stays stays)
    wait_for-Holds id (timed_out ∷ wakes) c h =
        let (found, q) = look id c.recv_queue none [] in
        let stays = kept.looked id c.recv_queue c.sent h in
        found-Holds found (record c { recv_queue = q })
          (response lib.null, record c { recv_queue = q }) stays stays
    wait_for-Holds id (notified ms ∷ wakes) c h =
        let (found, q) = look id c.recv_queue none [] in
        let c' = record c { recv_queue = q } in
        let stays = kept.looked id c.recv_queue c.sent h in
        let later =
          wait_for-Holds id wakes (recv_thread lib order ms c') (recv_thread-Holds ms c' stays) in
        found-Holds found c' _ stays (
          choice-Holds c.connected (wait_for lib order id wakes (recv_thread lib order ms c'))
            (response lib.null, c') later stays)
