-- ===== src/Logic/Replies.antt =====
-- What the handlers of LogicSystem.cpp share: the replies, the error replies and the `catch`.
use coroutine_server.Prelude.{
  ℕ, ◌-◌, ◌%◌, List, [], ◌∷◌, ◌++◌, Bytes, codes, ℤ, pos, negsuc, length, String,
}
use coroutine_server.Wire.Endian.{ByteOrder}
use coroutine_server.Db.{Db, Message, Outcome}
use coroutine_server.World.{World, send}
use coroutine_server.Logic.Monad.{Action, pure, lift, modify, ◌>>=◌, try_catch}
use coroutine_server.Logic.Json.{Scalar, num, text, one, JsonLib}

-- The implicit conversion of an `int` to `short`.
abbrev pub short_of_int : ℤ → ℕ
short_of_int (pos n) = n % 65536
short_of_int (negsuc n) = 65535 - n % 65536

-- One object of the array of offline messages.
abbrev pub message_item : Message → List (String × Scalar)
message_item m =
    ("msg_id", num (pos m.msg_id))
    ∷ ("from_uid", num m.from_uid)
    ∷ ("content", text m.content)
    ∷ ("timestamp", text m.timestamp)
    ∷ []

abbrev pub count_of : List Message → ℤ
count_of ms = pos (length ms)

-- What a run of a handler takes from outside: the outcomes of its database calls in their order, and
-- the text of the local time.
pub record Env : Type 0 where
  pub outcome : ℕ → Outcome
  pub timestamp : Bytes

-- A method of `DBManager`.
unfoldable pub on_db : {A : Type 0} → (Db → A × Db) → World → A × World
on_db f w = let (a, db') = f w.db in (a, record w { db = db' })

module _ {Json : Type 0} (lib : JsonLib Json) (order : ByteOrder) where
  open lib use {dump}

  -- `session->Send(body, id)`
  unfoldable pub reply : ℕ → Bytes → ℕ → Action (Unit {0})
  reply sid body id = modify (send order sid body id)

  -- `session->Send(ErrorResponse(-1, msg), id)`
  unfoldable pub reply_error : ℕ → Bytes → ℕ → Action (Unit {0})
  reply_error sid msg id = do
    body ← lift (dump (("status", one (num (negsuc 0))) ∷ ("msg", one (text msg)) ∷ []))
    reply sid body id

  -- The `catch` of the handlers: it reports the text of the exception, and what that throws is lost.
  unfoldable pub guarded : ℕ → ℕ → Action (Unit {0}) → Action (Unit {0})
  guarded sid id m =
      try_catch m λ what. try_catch (reply_error sid (codes "exception: " ++ what) id) λ _. pure tt
