-- ===== src/Pool/Tests.antt =====
-- A pool of three services.
use coroutine_server.Prelude.{ℕ, ◌≡◌, ◌↔◌, true, false, some, [], ◌∷◌, arith}
use coroutine_server.Pool.{Service, Pool, get_io_service}
use coroutine_server.Pool.Turns.{skip, turn, get_io_service-turn}

abbrev rest : Service
rest = record { guarded = true; returned = false; joinable = true }

abbrev three : Pool
three = record { io_service = rest ∷ rest ∷ rest ∷ []; next_io_service = 5 }

get_io_service-turn_example :
    ((get_io_service (skip 1 three)).0 ≡ some 0) ↔ ((let i : ℕ = 1 in i ≡ turn three 0))
get_io_service-turn_example =
    get_io_service-turn three 1 0 (omega arith) (omega arith) (omega arith)
