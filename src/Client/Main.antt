-- ===== src/Client/Main.antt =====
-- The commands and the loop of `main` of TestClient/TestClient.cpp. A turn is one
-- round of that loop, with the line that the user types and what the network does meanwhile.
pub mod Kept
pub mod Invariant
pub mod Sent
pub mod Relogin
pub mod Replies
mod Tests
use coroutine_server.Prelude.{
  ℕ, Bool, true, false, not, Option, none, some, List, [], ◌∷◌, Bytes, codes, bytes_eq, length, map,
  String, ℤ, pos, negsuc, ◌==ℤ◌, ◌==◌, if◌then◌else◌,
}
use coroutine_server.Const.{
  msg_register_req, msg_register_rsp, msg_login_req, msg_login_rsp, msg_get_friend_list_req,
  msg_get_friend_list_rsp, msg_add_friend_req, msg_add_friend_rsp, msg_send_chat_req,
  msg_send_chat_rsp, msg_offline_msg_req, msg_offline_msg_rsp,
}
use coroutine_server.Wire.Endian.{ByteOrder}
use coroutine_server.Logic.Monad.{Result, ok, throw}
use coroutine_server.Logic.Json.{Fields, one, num, text}
use coroutine_server.Client.State.{
  ClientJson, Client, Incoming, Wake, Waiting, response, still, recv_round, recv_thread,
  send_request, wait_for,
}
use coroutine_server.Client.Commands.{
  read_word, Command, skip, friends, offline, reconnect, quit, registers, logs_in, adds_friend,
  chats, command,
}
use coroutine_server.Client.Login.{
  Login, logs, fails, delayed, account, on_result, on_response, print_response, do_login,
}

pub record Turn : Type 0 where
  -- `none` is the end of the input.
  pub line : Option Bytes
  -- What the receive thread gets while the client waits for the line.
  pub before : List Incoming
  -- The round in which the receive thread is when it is told to stop, if it runs.
  pub last : Option Incoming
  -- A new connection succeeds.
  pub connects : Bool
  -- The write of the request succeeds.
  pub writes : Bool
  pub wakes : List Wake

-- How a turn ends: with the next one, with an exit code, in `std::terminate`, as an exception destroys
-- `recv_thread` before it is joined, or not as long as it waits.
pub data Outcome (Json : Type 0) : Type 0 where
  goes_on : Client Json → Outcome Json
  exits : ℕ → Outcome Json
  terminates : Outcome Json
  waits : Outcome Json

-- The state after `TryConnect` and the start of the receive thread.
abbrev pub new_client : {Json : Type 0} → Client Json
new_client = record {
  recv_queue = [];
  stop_recv = false;
  connected = true;
  logged_in = false;
  last_username = [];
  last_password = [];
  receiving = true;
  sent = [];
}

module _ {Json : Type 0} (lib : ClientJson Json) (order : ByteOrder) where
  open lib use {value_int, dump, null_text}

  -- A request, the wait for its response, which is printed, and what follows.
  unfoldable pub ask :
      Turn → ℕ → Result Bytes → ℕ → (Json → Client Json → Outcome Json) → Client Json → Outcome Json
  ask t id body rsp_id next c =
      let (sent, c1) = send_request lib order t.writes id body c in
      let (waited, c2) = wait_for lib order rsp_id t.wakes c1 in
      if not sent
      then goes_on c1
      else on_response waited waits
          λ rsp. on_result (print_response lib order rsp) terminates λ _. next rsp c2

  abbrev pub printed : Json → Client Json → Outcome Json
  printed rsp c = goes_on c

  -- The end of /login: `rsp.value` throws if the response is null.
  unfoldable pub logged : Bytes → Bytes → Json → Client Json → Outcome Json
  logged user pass rsp c = on_result (value_int rsp "status" (negsuc 0)) terminates λ status.
      if status ==ℤ pos 0
      then goes_on (record c { logged_in = true; last_username = user; last_password = pass })
      else goes_on c

  unfoldable pub run_command : Command → Turn → Client Json → Outcome Json
  run_command skip t c = goes_on c
  run_command (registers user pass) t c =
      ask t msg_register_req (dump (account user pass)) msg_register_rsp printed c
  run_command (logs_in user pass) t c =
      ask t msg_login_req (dump (account user pass)) msg_login_rsp (logged user pass) c
  run_command friends t c =
      ask t msg_get_friend_list_req (ok null_text) msg_get_friend_list_rsp printed c
  run_command (adds_friend uid) t c =
      ask t msg_add_friend_req (dump (("friend_uid", one (num uid)) ∷ [])) msg_add_friend_rsp
        printed c
  run_command (chats uid content) t c =
      ask t msg_send_chat_req
        (dump (("to_uid", one (num uid)) ∷ ("content", one (text content)) ∷ [])) msg_send_chat_rsp
        printed c
  run_command offline t c = ask t msg_offline_msg_req (ok null_text) msg_offline_msg_rsp printed c
  run_command reconnect t c = goes_on (record c { connected = false })
  run_command quit t c = exits 0

  -- A turn of a connected client.
  unfoldable pub attended : Turn → Client Json → Outcome Json
  attended t c = elim t.line [
    | none ↦ exits 0
    | some line ↦ run_command (command line) t (recv_thread lib order t.before c)
  ]

  -- The receive thread is told to stop and joined.
  unfoldable pub joined : Option Incoming → Client Json → Client Json
  joined none c = record c { stop_recv = true; receiving = false }
  joined (some m) c =
      let c' = if c.receiving then recv_round lib order m c else c in
      record c' { stop_recv = true; receiving = false }

  -- /reconnect after the connection is lost. The receive thread starts after `DoLogin`.
  unfoldable pub reconnects : Turn → Client Json → Outcome Json
  reconnects t c =
      let c' = record c {
        recv_queue = [];
        stop_recv = false;
        connected = true;
        logged_in = false;
        sent = [];
      } in
      if t.connects
      then elim (do_login lib order t.writes t.wakes c') [
        | delayed ↦ waits
        | fails ↦ exits 1
        | logs _ c2 ↦ goes_on (record c2 { receiving = true })
      ]
      else exits 1

  -- The first word of a line, empty if there is none.
  abbrev pub first_word : Bytes → Bytes
  first_word line = elim (read_word line) [ none ↦ [] | some (word, _) ↦ word ]

  -- A turn after the connection is lost: every line but /reconnect ends the program.
  unfoldable pub unattended : Turn → Client Json → Outcome Json
  unattended t c = elim t.line [
    | none ↦ exits 0
    | some line ↦
        if bytes_eq (first_word line) (codes "/reconnect")
        then reconnects t (joined t.last c)
        else exits 0
  ]

  unfoldable pub main_turn : Turn → Client Json → Outcome Json
  main_turn t c = if c.connected then attended t c else unattended t c

  unfoldable pub main_loop : List Turn → Client Json → Outcome Json
  main_loop [] c = goes_on c
  main_loop (t ∷ ts) c = elim (main_turn t c) [
    | goes_on c' ↦ main_loop ts c'
    | exits code ↦ exits code
    | terminates ↦ terminates
    | waits ↦ waits
  ]
