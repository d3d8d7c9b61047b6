-- ===== src/Pool.antt =====
-- `AsioIOServicePool` (CoroutineServer/AsioIOServicePool.h and AsioIOServicePool.cpp): the
-- io_contexts, each with its work guard and its thread.
pub mod Turns
mod Tests
use coroutine_server.Prelude.{
  ℕ, zero, suc, ◌+◌, ◌^◌, ◌%◌, Bool, true, false, not, Option, none, some, List, [], ◌∷◌, map, ◌==◌,
  if◌then◌else◌, length, replicate,
}

-- One io_context, with its entries of `_works` and `_threads`.
pub record Service : Type 0 where
  -- `_works[i]` holds its guard.
  pub guarded : Bool
  -- `_ioService[i].run()` has returned, and with it the function of the thread.
  pub returned : Bool
  -- `std::thread::joinable`
  pub joinable : Bool

pub record Pool : Type 0 where
  pub io_service : List Service
  pub next_io_service : ℕ

-- The constructor; `size` is `std::thread::hardware_concurrency()`.
unfoldable pub new_pool : ℕ → Pool
new_pool size = record {
  io_service = replicate size (record { guarded = true; returned = false; joinable = true });
  next_io_service = 0;
}

-- `GetIOService`, by the index of the service; `fetch_add` wraps around. `none` is the remainder by 0.
unfoldable pub get_io_service : Pool → Option ℕ × Pool
get_io_service p =
    let size = length p.io_service in
    (
      if size == 0 then none else some (p.next_io_service % size),
      record p { next_io_service = (p.next_io_service + 1) % 2 ^ 64 },
    )

-- `work.reset()`
abbrev pub reset : Service → Service
reset s = record s { guarded = false }

-- The first loop of `Stop`.
abbrev pub reset_all : Pool → Pool
reset_all p = record p { io_service = map reset p.io_service }

abbrev pub service_at : ℕ → List Service → Option Service
service_at i [] = none
service_at zero (s ∷ ss) = some s
service_at (suc i) (s ∷ ss) = service_at i ss

abbrev pub adjust : (Service → Service) → ℕ → List Service → List Service
adjust f i [] = []
adjust f zero (s ∷ ss) = f s ∷ ss
adjust f (suc i) (s ∷ ss) = s ∷ adjust f i ss

abbrev pub joined_one : Service → Service
joined_one s = record s { joinable = false }

abbrev pub returned_one : Service → Service
returned_one s = record s { returned = true }

-- The second loop of `Stop` at its thread `i`: there is no such thread, and `Stop` returns; `t.join()`
-- throws, the thread having been joined before; it waits for the thread; or it returns.
pub data Join : Type 0 where
  finished throws waits : Join
  joined : Pool → Join

unfoldable pub join : ℕ → Pool → Join
join i p = elim (service_at i p.io_service) [
  | none ↦ finished
  | some s ↦
      if not s.joinable
      then throws
      else if s.returned
      then joined (record p { io_service = adjust joined_one i p.io_service })
      else waits
]
