-- ===== src/Client/Main/Replies.antt =====
-- The messages that reach the queue of the client's `main`, and the response to /offline.
use coroutine_server.Prelude.{
  ℕ, ◌≡◌, sym, subst, Bool, true, false, Option, none, some, List, [], ◌∷◌, ◌++◌, ◌==◌, ==_iff, ap,
  Bool-cases, inl, inr, arith, if◌then◌else◌,
}
use coroutine_server.Const.{msg_offline_msg_rsp}
use coroutine_server.Wire.Endian.{ByteOrder}
use coroutine_server.Client.{look}
use coroutine_server.Client.Inbox.{others, last_of, look_lem}
use coroutine_server.Client.State.{
  ClientJson, Incoming, Wake, timed_out, notified, Waiting, response, still, is_push, recv_thread,
  wait_for,
}
use coroutine_server.Client.State
use coroutine_server.Client.Main.{Turn, goes_on, new_client, main_loop}
use coroutine_server.Client.Main.Kept.{if-all, Kept, recv_thread-Holds}
use coroutine_server.Client.Main.Invariant.{main_loop-kept}

module _ {Json : Type 0} (lib : ClientJson Json) (order : ByteOrder) where
  -- No message of the queue is one that the receive thread shows.
  abbrev NoPush : List (ℕ × Json) → Type 0
  NoPush [] = Unit {0}
  NoPush ((id, json) ∷ q) = (is_push lib order id json ≡ false) × NoPush q

  append-NoPush :
      (q : List (ℕ × Json)) (id : ℕ) (json : Json)
      → is_push lib order id json ≡ false
      → NoPush q
      → NoPush (q ++ (id, json) ∷ [])
  append-NoPush [] id json e h = (e, tt)
  append-NoPush (m ∷ q) id json e h = (h.0, append-NoPush q id json e h.1)

  others-NoPush : (id : ℕ) (q : List (ℕ × Json)) → NoPush q → NoPush (others id q)
  others-NoPush id [] h = tt
  others-NoPush id ((n, json) ∷ q) h =
      if-all NoPush (n == id) (others id q) ((n, json) ∷ others id q) (others-NoPush id q h.1)
        (h.0, others-NoPush id q h.1)

  abbrev Queued : ℕ → Option Json → Type 0
  Queued id none = Unit {0}
  Queued id (some json) = is_push lib order id json ≡ false

  last_of-Queued :
      (id : ℕ) (r : Option Json) (q : List (ℕ × Json))
      → Queued id r
      → NoPush q
      → Queued id (last_of id r q)
  last_of-Queued id r [] k h = k
  last_of-Queued id r ((n, json) ∷ q) k h = elim (Bool-cases (n == id)) [
    | inl same ↦ rw same (
        last_of-Queued id (some json) q
          (subst (λ m. is_push lib order m json ≡ false) (ground (arith, same, ==_iff n id)) h.0)
          h.1)
    | inr other ↦ rw other (last_of-Queued id r q k h.1)
  ]

  NoPush-Kept : Kept lib order λ q s. NoPush q
  NoPush-Kept = record {
    fresh = tt;
    queued = λ id json q s e h. append-NoPush q id json e h;
    framed = λ id body q s a h. h;
    looked = λ id q s h.
        subst NoPush (sym (ap (λ (r : Option Json × List (ℕ × Json)). r.1) (look_lem id q none [])))
          (others-NoPush id q h);
  }

  -- Nothing of the offline messages is in the response.
  abbrev Bare : Waiting Json → Type 0
  Bare still = Unit {0}
  Bare (response rsp) = lib.contains rsp "messages" ≡ false

  queued-Bare :
      (json : Json)
      → is_push lib order msg_offline_msg_rsp json ≡ false
      → lib.contains json "messages" ≡ false
  unfolding is_push
  queued-Bare json e = ground (arith, e)

  looked-Bare :
      (q : List (ℕ × Json)) (c : State.Client Json) (later : Waiting Json × State.Client Json)
      → NoPush q
      → Bare later.0
      → let result : Waiting Json × State.Client Json =
          elim (look msg_offline_msg_rsp q none []).0 [
            | some json ↦ (response json, c)
            | none ↦ later
          ] in
        Bare result.0
  looked-Bare q c later h k = of (look msg_offline_msg_rsp q none []).0 (
      subst (Queued msg_offline_msg_rsp)
        (sym (
          ap (λ (r : Option Json × List (ℕ × Json)). r.0) (look_lem msg_offline_msg_rsp q none [])))
        (last_of-Queued msg_offline_msg_rsp none q tt h))
    where
      of :
          (found : Option Json)
          → Queued msg_offline_msg_rsp found
          → let result : Waiting Json × State.Client Json = elim found [
            | some json ↦ (response json, c)
            | none ↦ later
          ] in
            Bare result.0
      of none e = k
      of (some json) e = queued-Bare json e

  either-Bare :
      (b : Bool) (x y : Waiting Json × State.Client Json)
      → Bare x.0
      → Bare y.0
      → Bare (if b then x else y).0
  either-Bare true x y h k = h
  either-Bare false x y h k = k

  wait_for-Bare :
      (wakes : List Wake) (c : State.Client Json)
      → NoPush c.recv_queue
      → Bare (wait_for lib order msg_offline_msg_rsp wakes c).0
  unfolding wait_for
  wait_for-Bare [] c h =
      let c' = record c { recv_queue = (look msg_offline_msg_rsp c.recv_queue none []).1 } in
      looked-Bare c.recv_queue c' _ h (
        either-Bare c.connected (still, c') (response lib.null, c') tt
          (lib.null_contains "messages"))
  wait_for-Bare (timed_out ∷ wakes) c h =
      let c' = record c { recv_queue = (look msg_offline_msg_rsp c.recv_queue none []).1 } in
      looked-Bare c.recv_queue c' (response lib.null, c') h (lib.null_contains "messages")
  wait_for-Bare (notified ms ∷ wakes) c h =
      let c' = record c { recv_queue = (look msg_offline_msg_rsp c.recv_queue none []).1 } in
      let next = recv_thread lib order ms c' in
      let later = wait_for-Bare wakes next (
        recv_thread-Holds lib order (λ q s. NoPush q) NoPush-Kept ms c'
          (NoPush-Kept.looked msg_offline_msg_rsp c.recv_queue c.sent h)) in
      looked-Bare c.recv_queue c' _ h (
        either-Bare c.connected (wait_for lib order msg_offline_msg_rsp wakes next)
          (response lib.null, c') later (lib.null_contains "messages"))

  -- After any turns of the client's `main` that do not end it, and whatever arrives before and
  -- during the wait, the response that /offline waits for never has the offline messages: the
  -- receive thread shows a reply that has them and does not queue it, so the wait ends without them
  -- or does not end.
  pub offline-unanswered :
      (ts : List Turn) (c : State.Client Json) (before : List Incoming) (wakes : List Wake)
      (rsp : Json)
      → main_loop lib order ts new_client ≡ goes_on c
      → (wait_for lib order msg_offline_msg_rsp wakes (recv_thread lib order before c)).0
        ≡ response rsp
      → lib.contains rsp "messages" ≡ false
  offline-unanswered ts c before wakes rsp e found =
      let here = main_loop-kept lib order (λ q s. NoPush q) NoPush-Kept ts c e in
      let there = recv_thread-Holds lib order (λ q s. NoPush q) NoPush-Kept before c here in
      subst Bare found (wait_for-Bare wakes (recv_thread lib order before c) there)
