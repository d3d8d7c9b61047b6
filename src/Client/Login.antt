-- ===== src/Client/Login.antt =====
-- `PrintResponse` and `DoLogin` of TestClient/TestClient.cpp.
use coroutine_server.Prelude.{
  Bool, true, false, not, List, [], ◌∷◌, Bytes, length, map, String, pos, negsuc, ◌==ℤ◌, ◌==◌,
  if◌then◌else◌,
}
use coroutine_server.Const.{msg_login_req, msg_login_rsp}
use coroutine_server.Wire.Endian.{ByteOrder}
use coroutine_server.Logic.Monad.{Result, ok, throw}
use coroutine_server.Logic.Json.{Fields, one, text}
use coroutine_server.Client.State.{
  ClientJson, Client, Wake, Waiting, response, still, send_request, wait_for,
}

-- What `DoLogin` returns, or that it throws or waits.
pub data Login (Json : Type 0) : Type 0 where
  logs : Bool → Client Json → Login Json
  fails : Login Json
  delayed : Login Json

-- The user and the password of a request.
abbrev pub account : Bytes → Bytes → Fields
account user pass = ("username", one (text user)) ∷ ("password", one (text pass)) ∷ []

-- What follows a call that may throw, and a wait that may last.
unfoldable pub on_result : {A B : Type 0} → Result A → B → (A → B) → B
on_result (throw what) x f = x
on_result (ok a) x f = f a

unfoldable pub on_response : {Json B : Type 0} → Waiting Json → B → (Json → B) → B
on_response still x f = x
on_response (response rsp) x f = f rsp

-- Reads one after the other, each of which may throw; what is read is only printed.
abbrev pub done : {A : Type 0} → Result A → Result (Unit {0})
done (ok a) = ok tt
done (throw what) = throw what

abbrev pub in_order : List (Result (Unit {0})) → Result (Unit {0})
in_order [] = ok tt
in_order (throw what ∷ rs) = throw what
in_order (ok _ ∷ rs) = in_order rs

abbrev pub each : {A : Type 0} → (A → Result (Unit {0})) → Result (List A) → Result (Unit {0})
each read (throw what) = throw what
each read (ok xs) = in_order (map read xs)

module _ {Json : Type 0} (lib : ClientJson Json) (order : ByteOrder) where
  open lib use {
    is_null, contains, value_int, get_int64, get_int, get_string, elements, as_int64, dump,
    null_text,
  }

  -- What `PrintResponse` reads of an offline message.
  abbrev pub offline_item : Json → Result (Unit {0})
  offline_item m = in_order (
      done (get_int64 m "msg_id")
      ∷ done (get_int64 m "from_uid")
      ∷ done (get_string m "timestamp")
      ∷ done (get_string m "content")
      ∷ [])

  -- `PrintResponse`: what it reads, until a read throws.
  unfoldable pub print_response : Json → Result (Unit {0})
  print_response rsp =
      let has =
        λ (key : String) (read : Result (Unit {0})). if contains rsp key then read else ok tt in
      if is_null rsp
      then ok tt
      else in_order (
          done (value_int rsp "status" (negsuc 998))
          ∷ has "uid" (done (get_int64 rsp "uid"))
          ∷ has "msg" (done (get_string rsp "msg"))
          ∷ has "offline_count" (done (get_int rsp "offline_count"))
          ∷ has "friends" (each (λ m. done (as_int64 m)) (elements rsp "friends"))
          ∷ has "messages" (done (get_int rsp "count"))
          ∷ has "messages" (each offline_item (elements rsp "messages"))
          ∷ has "msg_id" (done (get_int64 rsp "msg_id"))
          ∷ [])

  -- The end of `DoLogin` with a response that is not null.
  unfoldable pub login_answer : Json → Client Json → Login Json
  login_answer rsp c = on_result (print_response rsp) fails λ _.
      on_result (value_int rsp "status" (negsuc 0)) fails λ status.
        if status ==ℤ pos 0
        then on_result (get_int64 rsp "uid") fails (λ _. logs true (record c { logged_in = true }))
        else logs false c

  unfoldable pub do_login : Bool → List Wake → Client Json → Login Json
  do_login writes wakes c =
      let (sent, c1) =
        send_request lib order writes msg_login_req (dump (account c.last_username c.last_password))
          c in
      let (waited, c2) = wait_for lib order msg_login_rsp wakes c1 in
      if length c.last_username == 0
      then logs false c
      else if not sent
      then logs false c1
      else on_response waited delayed
          λ rsp. if is_null rsp then logs false c2 else login_answer rsp c2
