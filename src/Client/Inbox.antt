-- ===== src/Client/Inbox.antt =====
-- What one pass of `WaitForResponse` does to the received messages.
use coroutine_server.Prelude.{
  ℕ, ◌≡◌, ◌==◌, Option, some, List, [], ◌∷◌, ◌++◌, if◌then◌else◌, arith, append_assoc, append-nil,
}
use coroutine_server.Client.{look}

-- The messages of other ids, in their order.
abbrev pub others : {Json : Type 0} → ℕ → List (ℕ × Json) → List (ℕ × Json)
others expected [] = []
others expected ((id, json) ∷ queue) =
    let rest = others expected queue in if id == expected then rest else (id, json) ∷ rest

-- The last message with the id; the given one if there is none.
abbrev pub last_of : {Json : Type 0} → ℕ → Option Json → List (ℕ × Json) → Option Json
last_of expected result [] = result
last_of expected result ((id, json) ∷ queue) =
    let found = last_of expected (some json) queue in
    let kept = last_of expected result queue in if id == expected then found else kept

-- A pass returns the last message with the expected id and keeps the messages of all other ids, in
-- their order; earlier messages with the expected id are lost.
pub look_lem :
    {Json : Type 0} (expected : ℕ) (queue : List (ℕ × Json)) (result : Option Json)
    (temp : List (ℕ × Json))
    → look expected queue result temp
      ≡ (last_of expected result queue, temp ++ others expected queue)
unfolding look
look_lem expected [] result temp = ground (arith, append-nil temp)
look_lem expected ((id, json) ∷ queue) result temp = ground (
  arith,
  look_lem expected queue (some json) temp,
  look_lem expected queue result (temp ++ (id, json) ∷ []),
  append_assoc temp ((id, json) ∷ []) (others expected queue),
)
