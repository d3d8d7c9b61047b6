-- ===== src/Client/State.antt =====
-- The state that the two threads of TestClient/TestClient.cpp share, the receive thread, `SendMsg`
-- on the connection, and `WaitForResponse` with what the receive thread does meanwhile.
use coroutine_server.Prelude.{
  ℕ, zero, suc, ◌≡◌, ◌≤◌, length, Bool, true, false, ◌&&◌, ◌||◌, not, Option, none, some, List, [],
  ◌∷◌, ◌++◌, Bytes, ℤ, ◌==◌, if◌then◌else◌, String,
}
use coroutine_server.Const.{msg_friend_request_push, msg_chat_msg_push, msg_offline_msg_rsp}
use coroutine_server.Wire.Endian.{ByteOrder}
use coroutine_server.Logic.Monad.{Result, ok, throw}
use coroutine_server.Logic.Json.{Fields}
use coroutine_server.Client.{send_msg, look, failed, message, recv_one_message}
use coroutine_server.Reader.Transport.{Input}

-- What the client takes from nlohmann::json.
pub record ClientJson (Json : Type 0) : Type 0 where
  -- `json::parse(body, nullptr, false)`; `none` is a discarded value.
  pub parse : Bytes → Option Json
  -- A default-constructed value.
  pub null : Json
  pub is_null : Json → Bool
  pub contains : Json → String → Bool
  -- `rsp.value(key, fallback)`; it throws if `rsp` is no object, or the value is no number.
  pub value_int : Json → String → ℤ → Result ℤ
  -- `rsp[key].get<int64_t>()`
  pub get_int64 : Json → String → Result ℤ
  -- `rsp[key].get<int>()` and `rsp[key].get<std::string>()`
  pub get_int : Json → String → Result ℤ
  pub get_string : Json → String → Result Bytes
  -- `arr[i]` for each i below `arr.size()`, where `arr` is `rsp[key]`; and `arr[i].get<int64_t>()`.
  pub elements : Json → String → Result (List Json)
  pub as_int64 : Json → Result ℤ
  -- `dump()` of an object with these keys and values, and of null.
  pub dump : Fields → Result Bytes
  pub null_text : Bytes
  pub null_is_null : is_null null ≡ true
  -- `value` on null is a type error.
  pub null_throws :
      (key : String) (fallback : ℤ) → (what : Bytes) × (value_int null key fallback ≡ throw what)
  pub null_contains : (key : String) → contains null key ≡ false
  -- A text of JSON has at least one byte.
  pub dump_some : (f : Fields) (json : Bytes) → dump f ≡ ok json → 1 ≤ length json
  pub null_text_some : 1 ≤ length null_text

-- The globals, the receive thread, and the bytes of the writes that succeeded on the present
-- connection; after one that fails, nothing more is written on it.
pub record Client (Json : Type 0) : Type 0 where
  -- Oldest first.
  pub recv_queue : List (ℕ × Json)
  pub stop_recv : Bool
  pub connected : Bool
  pub logged_in : Bool
  pub last_username : Bytes
  pub last_password : Bytes
  -- A receive thread runs.
  pub receiving : Bool
  pub sent : Bytes

-- What `RecvOneMessage` returns to the receive thread: false, or a message.
pub data Incoming : Type 0 where
  lost : Incoming
  arrives : ℕ → Bytes → Incoming

-- How a wait on `g_recv_cv` ends.
pub data Wake : Type 0 where
  timed_out : Wake
  notified : List Incoming → Wake

-- `WaitForResponse` returns a value, or still waits.
pub data Waiting (Json : Type 0) : Type 0 where
  response : Json → Waiting Json
  still : Waiting Json

module _ {Json : Type 0} (lib : ClientJson Json) (order : ByteOrder) where
  open lib use {parse, contains, null}

  -- The connection is given up.
  abbrev pub disconnected : Client Json → Client Json
  disconnected c = record c { connected = false; logged_in = false }

  -- The messages that the receive thread shows at once; the others go to the queue.
  unfoldable pub is_push : ℕ → Json → Bool
  is_push id json =
      id == msg_chat_msg_push
      || id == msg_friend_request_push
      || (id == msg_offline_msg_rsp && contains json "messages")

  -- One round of `RecvThreadFunc`. What the display throws is caught there.
  unfoldable pub recv_round : Incoming → Client Json → Client Json
  recv_round lost c = record (disconnected c) { receiving = false }
  recv_round (arrives id body) c = elim (parse body) [
    | none ↦ c
    | some json ↦
        if is_push id json then c else record c { recv_queue = c.recv_queue ++ (id, json) ∷ [] }
  ]

  -- Its rounds, while the thread runs and is not told to stop.
  unfoldable pub recv_thread : List Incoming → Client Json → Client Json
  recv_thread [] c = c
  recv_thread (m ∷ ms) c =
      recv_thread ms (if c.receiving && not c.stop_recv then recv_round m c else c)

  -- `SendMsg`, given the text of `root.dump()` and whether the write succeeds. A write that fails
  -- ends the connection.
  unfoldable pub send_request : Bool → ℕ → Result Bytes → Client Json → Bool × Client Json
  send_request writes id (throw what) c = (false, disconnected c)
  send_request writes id (ok json) c = elim (send_msg order id json) [
    | none ↦ (false, c)
    | some bytes ↦
        if writes then (true, record c { sent = c.sent ++ bytes }) else (false, disconnected c)
  ]

  -- `WaitForResponse`: each wait ends as the list says; `still` if the list ends first.
  unfoldable pub wait_for : ℕ → List Wake → Client Json → Waiting Json × Client Json
  wait_for id [] c =
      let (found, q) = look id c.recv_queue none [] in
      let c' = record c { recv_queue = q } in
      elim found [
        | some json ↦ (response json, c')
        | none ↦ if c.connected then (still, c') else (response null, c')
      ]
  wait_for id (timed_out ∷ ws) c =
      let (found, q) = look id c.recv_queue none [] in
      let c' = record c { recv_queue = q } in
      elim found [ some json ↦ (response json, c') | none ↦ (response null, c') ]
  wait_for id (notified ms ∷ ws) c =
      let (found, q) = look id c.recv_queue none [] in
      let c' = record c { recv_queue = q } in
      let later = wait_for id ws (recv_thread ms c') in
      elim found [
        | some json ↦ (response json, c')
        | none ↦ if c.connected then later else (response null, c')
      ]

-- What `RecvOneMessage` returns to the receive thread, call by call, from the bytes that arrive; at
-- most as many calls as there is fuel.
unfoldable pub incoming : ByteOrder → Input → ℕ → Bytes → List Incoming
incoming order input zero bytes = []
incoming order input (suc fuel) bytes = elim (recv_one_message order input bytes) [
  | failed ↦ lost ∷ []
  | message id body rest ↦ arrives id body ∷ incoming order input fuel rest
]
