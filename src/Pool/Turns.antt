-- ===== src/Pool/Turns.antt =====
-- The round robin of `GetIOService`.
use native.Mathlib.Nat.{mod-lt, mod-add-mod, mod-eq_of_lt, mod-eq-sub-mod}
use native.Mathlib.Decide.{dec_lt}
use coroutine_server.Prelude.{
  ℕ, zero, suc, ◌+◌, ◌-◌, ◌^◌, ◌%◌, ◌<◌, ◌≡◌, ◌↔◌, some, arith, ltb, if◌then◌else◌, length,
}
use coroutine_server.Pool.{Pool, get_io_service}

-- The pool after `i` calls.
unfoldable pub skip : ℕ → Pool → Pool
skip zero p = p
skip (suc i) p = skip i (get_io_service p).1

skip_lem :
    (i : ℕ) (p : Pool)
    → p.next_io_service + i < 2 ^ 64
    → ((skip i p).next_io_service ≡ p.next_io_service + i) × ((skip i p).io_service ≡ p.io_service)
unfolding skip get_io_service
skip_lem zero p h = ground arith
skip_lem (suc i) p h = ground (arith, skip_lem i (get_io_service p).1)

-- The call at which the service `j` has its turn.
abbrev pub turn : Pool → ℕ → ℕ
turn p j =
    let size = length p.io_service in
    let first = p.next_io_service % size in if ltb j first then j + size - first else j - first

-- One step round, for two numbers below the size.
around :
    (size r i : ℕ)
    → r < size
    → i < size
    → (r + i) % size ≡ (if ltb (r + i) size then r + i else r + i - size)
around size r i hr hi = elim (dec_lt (r + i) size) [
  | yes below ↦ ground (arith, mod-eq_of_lt below)
  | no above ↦ ground (
    arith,
    mod-eq-sub-mod {n = r + i} {m = size} (omega arith),
    mod-eq_of_lt {n = r + i - size} {m = size} (omega arith),
  )
]

round :
    (size r i j : ℕ)
    → r < size
    → i < size
    → j < size
    → ((r + i) % size ≡ j) ↔ (i ≡ (if ltb j r then j + size - r else j - r))
round size r i j hr hi hj = ground (arith, around size r i hr hi)

-- While the counter does not wrap around, each of the pool's services has its turn exactly once among
-- any `size` calls in a row: call `i` returns the service `j` exactly if `i` is the turn of `j`.
pub get_io_service-turn :
    (p : Pool) (i j : ℕ)
    → i < length p.io_service
    → j < length p.io_service
    → p.next_io_service + i < 2 ^ 64
    → ((get_io_service (skip i p)).0 ≡ some j) ↔ (i ≡ turn p j)
unfolding get_io_service
get_io_service-turn p i j hi hj small =
    let size = length p.io_service in
    let c = p.next_io_service in
    ground (
      arith,
      skip_lem i p small,
      mod-add-mod c size i,
      round size (c % size) i j (mod-lt c (omega arith)) hi hj,
    )
