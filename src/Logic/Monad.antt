-- ===== src/Logic/Monad.antt =====
-- A handler's code: it changes the server's state and may throw. What was changed before a throw
-- stays changed. The text of a thrown value is what `e.what()` gives.
use coroutine_server.Prelude.{Bytes, Option, none, some}
use coroutine_server.World.{World}

pub data Result {ℓ} (A : Type ℓ) : Type ℓ where
  ok : A → Result A
  throw : Bytes → Result A

abbrev pub Action : Type 0 → Type 0
Action A = World → Result A × World

module _ {A : Type 0} where
  unfoldable pub pure : A → Action A
  pure a w = (ok a, w)

  -- A call of a library that may throw and changes nothing here.
  unfoldable pub lift : Result A → Action A
  lift r w = (r, w)

  unfoldable pub gets : (World → A) → Action A
  gets f w = (ok (f w), w)

  -- A call that changes the state and returns a value.
  unfoldable pub state : (World → A × World) → Action A
  state f w = (ok (f w).0, (f w).1)

unfoldable pub modify : (World → World) → Action (Unit {0})
modify f w = (ok tt, f w)

-- What a null test chooses between.
unfoldable pub maybe : {A B : Type 0} → Option A → Action B → (A → Action B) → Action B
maybe none m f = m
maybe (some a) m f = f a

abbrev pub proceed : {A B : Type 0} → (A → Action B) → Result A → Action B
proceed f (ok a) w = f a w
proceed f (throw what) w = (throw what, w)

-- Opening this opens the actions above.
infixl 5 ◌>>=◌ ◌>>◌
unfoldable pub ◌>>=◌ : {A B : Type 0} → Action A → (A → Action B) → Action B
unfolding pure lift gets state modify maybe
◌>>=◌ m f w = proceed f (m w).0 (m w).1

abbrev pub ◌>>◌ : {B : Type 0} → Action (Unit {0}) → Action B → Action B
m >> k = m >>= λ _. k

abbrev pub recover : {A : Type 0} → (Bytes → Action A) → Result A → Action A
recover h (ok a) w = (ok a, w)
recover h (throw what) w = h what w

-- `try { m } catch (const std::exception& e) { handler(e.what()) }`
unfoldable pub try_catch : {A : Type 0} → Action A → (Bytes → Action A) → Action A
try_catch m h w = recover h (m w).0 (m w).1
