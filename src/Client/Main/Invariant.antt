-- ===== src/Client/Main/Invariant.antt =====
-- A `Kept` property holds after every turn of the client's `main`.
use coroutine_server.Prelude.{
  ℕ, ◌≡◌, ◌≤◌, Bool, true, false, Option, none, some, List, [], ◌∷◌, Bytes, length, arith, subst,
  not, codes, bytes_eq, pos, ◌==ℤ◌, ◌==◌, if◌then◌else◌,
}
use coroutine_server.Const.{
  msg_register_req, msg_register_rsp, msg_login_req, msg_login_rsp, msg_get_friend_list_req,
  msg_get_friend_list_rsp, msg_add_friend_req, msg_add_friend_rsp, msg_send_chat_req,
  msg_send_chat_rsp, msg_offline_msg_req, msg_offline_msg_rsp,
}
use coroutine_server.Wire.Endian.{ByteOrder}
use coroutine_server.Logic.Monad.{Result, ok, throw}
use coroutine_server.Client.State.{
  ClientJson, Client, Wake, Waiting, response, still, recv_thread, send_request, wait_for,
}
use coroutine_server.Client.Commands.{
  Command, skip, friends, offline, reconnect, quit, registers, logs_in, adds_friend, chats, command,
}
use coroutine_server.Client.Login.{
  on_result, on_response, Login, logs, fails, delayed, account, login_answer, do_login,
}
use coroutine_server.Client.Main.{
  Turn, Outcome, goes_on, exits, terminates, waits, new_client, ask, printed, logged, run_command,
  attended, joined, reconnects, first_word, unattended, main_turn, main_loop,
}
use coroutine_server.Client.Main.Kept.{
  Kept, Holds, Some, dump-Some, if-all, recv_thread-Holds, send_request-Holds, wait_for-Holds,
}

-- A predicate of all results of a call that may throw, or of a wait.
on_result-all :
    {A B : Type 0} (Q : B → Type 0) (r : Result A) (x : B) (f : A → B)
    → Q x
    → ((a : A) → Q (f a))
    → Q (on_result r x f)
unfolding on_result
on_result-all Q (throw what) x f h k = h
on_result-all Q (ok a) x f h k = k a

on_response-all :
    {Json B : Type 0} (Q : B → Type 0) (r : Waiting Json) (x : B) (f : Json → B)
    → Q x
    → ((rsp : Json) → Q (f rsp))
    → Q (on_response r x f)
unfolding on_response
on_response-all Q still x f h k = h
on_response-all Q (response rsp) x f h k = k rsp

module _ {Json : Type 0} (lib : ClientJson Json) (order : ByteOrder) where
  module _ (P : List (ℕ × Json) → Bytes → Type 0) (kept : Kept lib order P) where
    abbrev Fine : Outcome Json → Type 0
    Fine (goes_on c) = Holds P c
    Fine (exits code) = Unit {0}
    Fine terminates = Unit {0}
    Fine waits = Unit {0}

    abbrev FineLogin : Login Json → Type 0
    FineLogin (logs b c) = Holds P c
    FineLogin fails = Unit {0}
    FineLogin delayed = Unit {0}

    login_answer-Holds :
        (rsp : Json) (c : Client Json) → Holds P c → FineLogin (login_answer lib order rsp c)
    unfolding login_answer
    login_answer-Holds rsp c h = on_result-all FineLogin _ fails _ tt λ _.
        on_result-all FineLogin _ fails _ tt λ status.
          if-all FineLogin (status ==ℤ pos 0) _ (logs false c)
            (on_result-all FineLogin _ fails (λ _. logs true (record c { logged_in = true })) tt
              λ _. h)
            h

    do_login-Holds :
        (writes : Bool) (wakes : List Wake) (c : Client Json)
        → Holds P c
        → FineLogin (do_login lib order writes wakes c)
    unfolding do_login
    do_login-Holds writes wakes c h =
        let text = lib.dump (account c.last_username c.last_password) in
        let (sent, c1) = send_request lib order writes msg_login_req text c in
        let (waited, c2) = wait_for lib order msg_login_rsp wakes c1 in
        let h1 =
          send_request-Holds lib order P kept writes msg_login_req text c (omega arith)
            (omega arith) (dump-Some lib order (account c.last_username c.last_password)) h in
        let h2 = wait_for-Holds lib order P kept msg_login_rsp wakes c1 h1 in
        if-all FineLogin (length c.last_username == 0) (logs false c) _ h (
          if-all FineLogin (not sent) (logs false c1) _ h1 (
            on_response-all FineLogin waited delayed _ tt λ rsp.
              if-all FineLogin (lib.is_null rsp) (logs false c2) _ h2
                (login_answer-Holds rsp c2 h2)))

    ask-Holds :
        (t : Turn) (id : ℕ) (body : Result Bytes) (rsp_id : ℕ)
        (next : Json → Client Json → Outcome Json) (c : Client Json)
        → 1001 ≤ id
        → id ≤ 9999
        → Some lib order body
        → ((rsp : Json) (c' : Client Json) → Holds P c' → Fine (next rsp c'))
        → Holds P c
        → Fine (ask lib order t id body rsp_id next c)
    unfolding ask
    ask-Holds t id body rsp_id next c from to some_body then_ h =
        let (sent, c1) = send_request lib order t.writes id body c in
        let (waited, c2) = wait_for lib order rsp_id t.wakes c1 in
        let h1 = send_request-Holds lib order P kept t.writes id body c from to some_body h in
        let h2 = wait_for-Holds lib order P kept rsp_id t.wakes c1 h1 in
        if-all Fine (not sent) (goes_on c1) _ h1 (
          on_response-all Fine waited waits _ tt
            λ rsp. on_result-all Fine _ terminates _ tt λ _. then_ rsp c2 h2)

    printed-Holds : (rsp : Json) (c : Client Json) → Holds P c → Fine (printed lib order rsp c)
    printed-Holds rsp c h = h

    logged-Holds :
        (user pass : Bytes) (rsp : Json) (c : Client Json)
        → Holds P c
        → Fine (logged lib order user pass rsp c)
    unfolding logged
    logged-Holds user pass rsp c h = on_result-all Fine _ terminates _ tt λ status.
        if-all Fine (status ==ℤ pos 0)
          (goes_on (record c { logged_in = true; last_username = user; last_password = pass }))
          (goes_on c) h h

    run_command-Holds :
        (k : Command) (t : Turn) (c : Client Json) → Holds P c → Fine (run_command lib order k t c)
    unfolding run_command
    run_command-Holds skip t c h = h
    run_command-Holds (registers user pass) t c h =
        ask-Holds t msg_register_req _ msg_register_rsp _ c (omega arith) (omega arith)
          (dump-Some lib order _) printed-Holds h
    run_command-Holds (logs_in user pass) t c h =
        ask-Holds t msg_login_req _ msg_login_rsp _ c (omega arith) (omega arith)
          (dump-Some lib order _) (logged-Holds user pass) h
    run_command-Holds friends t c h =
        ask-Holds t msg_get_friend_list_req _ msg_get_friend_list_rsp _ c (omega arith)
          (omega arith) lib.null_text_some printed-Holds h
    run_command-Holds (adds_friend uid) t c h =
        ask-Holds t msg_add_friend_req _ msg_add_friend_rsp _ c (omega arith) (omega arith)
          (dump-Some lib order _) printed-Holds h
    run_command-Holds (chats uid content) t c h =
        ask-Holds t msg_send_chat_req _ msg_send_chat_rsp _ c (omega arith) (omega arith)
          (dump-Some lib order _) printed-Holds h
    run_command-Holds offline t c h =
        ask-Holds t msg_offline_msg_req _ msg_offline_msg_rsp _ c (omega arith) (omega arith)
          lib.null_text_some printed-Holds h
    run_command-Holds reconnect t c h = h
    run_command-Holds quit t c h = tt

    reconnects-Holds : (t : Turn) (c : Client Json) → Fine (reconnects lib order t c)
    unfolding reconnects
    reconnects-Holds t c =
        let c' = record c {
          recv_queue = [];
          stop_recv = false;
          connected = true;
          logged_in = false;
          sent = [];
        } in
        if-all Fine t.connects _ (exits 1)
          (again (do_login lib order t.writes t.wakes c')
            (do_login-Holds t.writes t.wakes c' kept.fresh))
          tt
      where
        again :
            (l : Login Json)
            → FineLogin l
            → Fine (elim l [
              | delayed ↦ waits
              | fails ↦ exits 1
              | logs _ c2 ↦ goes_on (record c2 { receiving = true })
            ])
        again delayed h = tt
        again fails h = tt
        again (logs b c2) h = h

    main_turn-Holds : (t : Turn) (c : Client Json) → Holds P c → Fine (main_turn lib order t c)
    unfolding main_turn attended unattended
    main_turn-Holds t c h =
        if-all Fine c.connected (attended lib order t c) (unattended lib order t c) (there t.line)
          (gone t.line)
      where
        there :
            (line : Option Bytes)
            → Fine (elim line [
              | none ↦ exits 0
              | some l ↦ run_command lib order (command l) t (recv_thread lib order t.before c)
            ])
        there none = tt
        there (some l) =
            run_command-Holds (command l) t (recv_thread lib order t.before c)
              (recv_thread-Holds lib order P kept t.before c h)

        gone :
            (line : Option Bytes)
            → Fine (elim line [
              | none ↦ exits 0
              | some l ↦
                  if bytes_eq (first_word lib order l) (codes "/reconnect")
                  then reconnects lib order t (joined lib order t.last c)
                  else exits 0
            ])
        gone none = tt
        gone (some l) =
            if-all Fine (bytes_eq (first_word lib order l) (codes "/reconnect")) _ (exits 0)
              (reconnects-Holds t (joined lib order t.last c)) tt

    -- It holds after any turns that do not end the program.
    main_loop-Holds :
        (ts : List Turn) (c : Client Json) → Holds P c → Fine (main_loop lib order ts c)
    unfolding main_loop
    main_loop-Holds [] c h = h
    main_loop-Holds (t ∷ ts) c h =
        on (main_turn lib order t c) (main_turn-Holds t c h) (main_loop-Holds ts)
      where
        on :
            (o : Outcome Json)
            → Fine o
            → ((c' : Client Json) → Holds P c' → Fine (main_loop lib order ts c'))
            → Fine (elim o [
              | goes_on c' ↦ main_loop lib order ts c'
              | exits code ↦ exits code
              | terminates ↦ terminates
              | waits ↦ waits
            ])
        on (goes_on c') h' ih = ih c' h'
        on (exits code) h' ih = tt
        on terminates h' ih = tt
        on waits h' ih = tt

    pub main_loop-kept :
        (ts : List Turn) (c : Client Json)
        → main_loop lib order ts new_client ≡ goes_on c
        → P c.recv_queue c.sent
    main_loop-kept ts c e = subst Fine e (main_loop-Holds ts new_client kept.fresh)
