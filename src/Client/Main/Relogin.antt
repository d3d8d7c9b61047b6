-- ===== src/Client/Main/Relogin.antt =====
-- The two logins of the client's `main` when no response comes: /login, and `DoLogin` after
-- /reconnect, which runs before the receive thread is started again.
use coroutine_server.Prelude.{
  ℕ, ◌≡◌, refl, Bool, true, false, not, Option, none, some, List, [], ◌∷◌, ◌++◌, Bytes, codes,
  bytes_eq, ◌==◌, length, negsuc, arith, if◌then◌else◌,
}
use coroutine_server.Const.{msg_login_req, msg_login_rsp}
use coroutine_server.Wire.Endian.{ByteOrder}
use coroutine_server.Logic.Monad.{Result, ok, throw}
use coroutine_server.Client.{look, send_msg}
use coroutine_server.Client.State.{
  ClientJson, Client, Incoming, Wake, timed_out, notified, response, disconnected, recv_round,
  recv_thread, send_request, wait_for,
}
use coroutine_server.Client.Commands.{logs_in, command, read_word}
use coroutine_server.Client.Login.{
  Login, logs, fails, delayed, account, on_result, on_response, print_response, login_answer,
  do_login,
}
use coroutine_server.Client.Main.{
  Turn, Outcome, goes_on, exits, terminates, waits, ask, logged, run_command, attended, joined,
  reconnects, first_word, unattended, main_turn,
}

-- A wait ends by its time.
abbrev gives_up : List Wake → Bool
gives_up [] = false
gives_up (timed_out ∷ wakes) = true
gives_up (notified ms ∷ wakes) = gives_up wakes

module _ {Json : Type 0} (lib : ClientJson Json) (order : ByteOrder) where
  -- A thread that does not run receives nothing.
  recv_thread-joined :
      (ms : List Incoming) (c : Client Json) → c.receiving ≡ false → recv_thread lib order ms c ≡ c
  unfolding recv_thread
  recv_thread-joined [] c e = refl
  recv_thread-joined (m ∷ ms) c e = ground (arith, e, recv_thread-joined ms c e)

  -- The client is connected, its queue is empty and no thread receives.
  abbrev quiet : Client Json → Client Json
  quiet c = record c { recv_queue = []; connected = true; receiving = false }

  wait_for-quiet :
      (id : ℕ) (wakes : List Wake) (c : Client Json)
      → gives_up wakes ≡ true
      → wait_for lib order id wakes (quiet c) ≡ (response lib.null, quiet c)
  unfolding wait_for look
  wait_for-quiet id [] c e = ground (arith, e)
  wait_for-quiet id (timed_out ∷ wakes) c e = refl
  wait_for-quiet id (notified ms ∷ wakes) c e =
      rw (recv_thread-joined ms (quiet c) refl) (wait_for-quiet id wakes c e)

  -- A login on a quiet connection fails, and the client stays logged out.
  abbrev LoggedOut : Login Json → Type 0
  LoggedOut (logs done c) = (done ≡ false) × (c.logged_in ≡ false)
  LoggedOut fails = ⊥
  LoggedOut delayed = ⊥

  -- The result of a write on a quiet connection of a client that is logged out.
  abbrev Written : Client Json → Bool × Client Json → Type 0
  Written c (false, c1) = c1.logged_in ≡ false
  Written c (true, c1) = (s : Bytes) × (c1 ≡ quiet (record c { sent = s }))

  send_request-quiet :
      (writes : Bool) (id : ℕ) (body : Result Bytes) (c : Client Json)
      → c.logged_in ≡ false
      → Written c (send_request lib order writes id body (quiet c))
  unfolding send_request
  send_request-quiet writes id (throw what) c e = refl
  send_request-quiet writes id (ok json) c e = of (send_msg order id json) writes
    where
      written :
          (b : Bool) (bytes : Bytes)
          → Written c (
              if b
              then (true, record (quiet c) { sent = c.sent ++ bytes })
              else (false, disconnected lib order (quiet c)))
      written true bytes = (c.sent ++ bytes, refl)
      written false bytes = refl

      of :
          (m : Option Bytes) (b : Bool)
          → Written c (elim m [
            | none ↦ (false, quiet c)
            | some bytes ↦
                if b
                then (true, record (quiet c) { sent = c.sent ++ bytes })
                else (false, disconnected lib order (quiet c))
          ])
      of none b = e
      of (some bytes) b = written b bytes

  do_login-quiet :
      (writes : Bool) (wakes : List Wake) (c : Client Json)
      → c.logged_in ≡ false
      → gives_up wakes ≡ true
      → LoggedOut (do_login lib order writes wakes (quiet c))
  unfolding do_login on_response
  do_login-quiet writes wakes c e g = named (length c.last_username == 0) _ (
      send_request-quiet writes msg_login_req (lib.dump (account c.last_username c.last_password)) c
        e)
    where
      finish : Bool × Client Json → Login Json
      finish (done, c1) =
          let (waited, c2) = wait_for lib order msg_login_rsp wakes c1 in
          if not done
          then logs false c1
          else on_response waited delayed
              λ rsp. if lib.is_null rsp then logs false c2 else login_answer lib order rsp c2

      finished : (sent : Bool × Client Json) → Written c sent → LoggedOut (finish sent)
      finished (false, c1) w = (refl, w)
      finished (true, c1) (s, w) =
          rw (w, wait_for-quiet msg_login_rsp wakes (record c { sent = s }) g, lib.null_is_null)
            (refl, e)

      named :
          (unnamed : Bool) (sent : Bool × Client Json)
          → Written c sent
          → LoggedOut (if unnamed then logs false (quiet c) else finish sent)
      named true sent w = (refl, e)
      named false sent w = finished sent w

  -- The turn goes on with a client that is logged out and receives.
  abbrev OutAgain : Outcome Json → Type 0
  OutAgain o = (c : Client Json) × (o ≡ goes_on c) × (c.logged_in ≡ false) × (c.receiving ≡ true)

  again_out :
      (l : Login Json)
      → LoggedOut l
      → OutAgain (elim l [
        | delayed ↦ waits
        | fails ↦ exits 1
        | logs _ c2 ↦ goes_on (record c2 { receiving = true })
      ])
  again_out (logs done c2) h = (record c2 { receiving = true }, refl, h.1, refl)
  again_out fails h = absurd h
  again_out delayed h = absurd h

  reconnects-OutAgain :
      (t : Turn) (c : Client Json)
      → t.connects ≡ true
      → gives_up t.wakes ≡ true
      → OutAgain (reconnects lib order t (record c { stop_recv = true; receiving = false }))
  unfolding reconnects
  reconnects-OutAgain t c e g = rw e (
      again_out _ (
        do_login-quiet t.writes t.wakes
          (record c { stop_recv = false; logged_in = false; sent = [] }) refl g))

  joined-OutAgain :
      (t : Turn) (last : Option Incoming) (c : Client Json)
      → t.connects ≡ true
      → gives_up t.wakes ≡ true
      → OutAgain (reconnects lib order t (joined lib order last c))
  unfolding joined
  joined-OutAgain t none c e g = reconnects-OutAgain t c e g
  joined-OutAgain t (some m) c e g =
      reconnects-OutAgain t (if c.receiving then recv_round lib order m c else c) e g

  typed_reconnect : bytes_eq (first_word lib order (codes "/reconnect")) (codes "/reconnect") ≡ true
  unfolding read_word bytes_eq
  typed_reconnect = refl

  -- If the connection is lost and the user types /reconnect, and a new connection succeeds, then
  -- `main` goes on, as soon as the wait for the response gives up, with a client that is logged out,
  -- whatever the server answers, and whose receive thread runs again.
  pub reconnect-logged_out :
      (t : Turn) (c : Client Json)
      → c.connected ≡ false
      → t.line ≡ some (codes "/reconnect")
      → t.connects ≡ true
      → gives_up t.wakes ≡ true
      → (c' : Client Json) × (main_turn lib order t c ≡ goes_on c')
        × (c'.logged_in ≡ false)
        × (c'.receiving ≡ true)
  unfolding main_turn unattended
  reconnect-logged_out t c down line e g =
      let (c', goes, out, receives) = joined-OutAgain t t.last c e g in
      (c', ground (arith, down, line, typed_reconnect, goes), out, receives)

  ask-null :
      (t : Turn) (id : ℕ) (body : Result Bytes) (rsp_id : ℕ)
      (next : Json → Client Json → Outcome Json) (c c1 : Client Json)
      → send_request lib order t.writes id body c ≡ (true, c1)
      → (wait_for lib order rsp_id t.wakes c1).0 ≡ response lib.null
      → ask lib order t id body rsp_id next c
        ≡ next lib.null (wait_for lib order rsp_id t.wakes c1).1
  unfolding ask on_response on_result print_response
  ask-null t id body rsp_id next c c1 sent waited = simp (sent, waited, lib.null_is_null)

  logged-null :
      (user pass : Bytes) (c : Client Json) → logged lib order user pass lib.null c ≡ terminates
  unfolding logged on_result
  logged-null user pass c =
      let (what, throws) = lib.null_throws "status" (negsuc 0) in rw throws refl

  -- If a connected client sends the request of /login and `WaitForResponse` gives null, as on a
  -- timeout or when the connection is lost, the program is terminated: `rsp.value` throws, and
  -- `recv_thread` is destroyed before it is joined.
  pub login-terminates :
      (t : Turn) (c c1 : Client Json) (line user pass : Bytes)
      → c.connected ≡ true
      → t.line ≡ some line
      → command line ≡ logs_in user pass
      → send_request lib order t.writes msg_login_req
          (lib.dump (account user pass))
          (recv_thread lib order t.before c)
        ≡ (true, c1)
      → (wait_for lib order msg_login_rsp t.wakes c1).0 ≡ response lib.null
      → main_turn lib order t c ≡ terminates
  unfolding main_turn attended run_command
  login-terminates t c c1 line user pass up typed parsed sent waited = ground (
    arith,
    up,
    typed,
    parsed,
    ask-null t msg_login_req (lib.dump (account user pass)) msg_login_rsp
        (logged lib order user pass) (recv_thread lib order t.before c) c1 sent waited,
    logged-null user pass (wait_for lib order msg_login_rsp t.wakes c1).1,
  )
