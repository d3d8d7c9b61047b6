-- ===== src/Logic/Callbacks.antt =====
-- What every handler of the table keeps, a dealt message keeps.
use coroutine_server.Prelude.{ℕ, ◌≡◌, Bool, true, false, Option, none, some, Bytes, if◌then◌else◌}
use coroutine_server.Wire.Endian.{ByteOrder}
use coroutine_server.World.{World}
use coroutine_server.Logic.Monad.{Action}
use coroutine_server.Logic.Json.{JsonLib}
use coroutine_server.Logic.Replies.{Env}
use coroutine_server.Logic.Keeps.{Keeps}
use coroutine_server.Logic.Dispatch.{LogicNode, msg_data, callback, deal}

module _ {ℓ} (P : World → Type ℓ) (sid : ℕ) where
  -- The handler that is found, if one is, keeps `P` when the session `sid` calls it.
  abbrev pub Found : Option (ℕ → Bytes → Action (Unit {0})) → Type ℓ
  Found none = Unit
  Found (some run) = (d : Bytes) → Keeps P (run sid d)

  pub record Kept (o : Option (ℕ → Bytes → Action (Unit {0}))) : Type ℓ where
    pub found : Found o

module _ {ℓ} {P : World → Type ℓ} {sid : ℕ} where
  pub if-Kept :
      (b : Bool) (x y : Option (ℕ → Bytes → Action (Unit {0})))
      → Kept P sid x
      → Kept P sid y
      → Kept P sid (if b then x else y)
  if-Kept true x y p q = p
  if-Kept false x y p q = q

  -- An entry that the id does not select.
  pub skip-Kept :
      (b : Bool) (x y : Option (ℕ → Bytes → Action (Unit {0})))
      → b ≡ false
      → Kept P sid y
      → Kept P sid (if b then x else y)
  skip-Kept b x y e q = rw e q

  pub some-Kept :
      (run : ℕ → Bytes → Action (Unit {0}))
      → ((d : Bytes) → Keeps P (run sid d))
      → Kept P sid (some run)
  some-Kept run k = record { found = k }

  pub none-Kept : Kept P sid none
  none-Kept = record { found = tt }

module _ {ℓ} {Json : Type 0} (lib : JsonLib Json) (order : ByteOrder) (hasher : Bytes → ℕ)
    (env : Env) (P : World → Type ℓ) where
  pub deal-Kept :
      (n : LogicNode) (w : World)
      → Kept P n.session (callback lib order hasher env n.recvnode.msg_id)
      → P w
      → P (deal lib order hasher env n w)
  unfolding deal
  deal-Kept n w k p = of_callback (callback lib order hasher env n.recvnode.msg_id) k.found
    where
      of_callback :
          (o : Option (ℕ → Bytes → Action (Unit {0})))
          → Found P n.session o
          → P (elim o [ none ↦ w | some run ↦ (run n.session (msg_data n.recvnode) w).1 ])
      of_callback none _ = p
      of_callback (some run) run_keeps = (run_keeps (msg_data n.recvnode)).along w p
