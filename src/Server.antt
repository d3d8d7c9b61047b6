-- ===== src/Server.antt =====
-- `CServer`'s acceptor (CoroutineServer/CServer.h and CServer.cpp) on the services of the pool, and
-- `main` of CoroutineServer/CoroutineServer.cpp: the start, the serving and the shutdown by a
-- signal. Boost.Asio's `run` is a parameter, `Asio`.
pub mod Threads
pub mod Busy
pub mod Shutdown
mod Tests
use coroutine_server.Prelude.{
  ℕ, zero, suc, ◌+◌, ◌≡◌, Bool, true, false, not, ◌&&◌, Option, none, some, List, [], ◌∷◌, ◌++◌,
  ◌==◌, if◌then◌else◌,
}
use coroutine_server.Pool.{
  Service, Pool, new_pool, get_io_service, reset_all, adjust, returned_one, finished, throws, waits,
  joined, join,
}

-- Where `main` stands: in `io_context.run()`; in the handler of the signal, whose `Stop` is at its
-- thread `i`; in the destructor of the pool, whose `Stop` is at its thread `i`; or at the end, with an
-- exit code.
pub data Phase : Type 0 where
  serving : Phase
  stopping : ℕ → Phase
  closing : ℕ → ℕ → Phase
  exited : ℕ → Phase

-- The pool; the service of the acceptor; the outstanding accept and the accept that has completed but
-- whose handler has not run, each by the service that its handler is bound to; the services of the
-- sessions made.
pub record Process : Type 0 where
  pub pool : Pool
  pub acceptor : ℕ
  pub accepting : Option ℕ
  pub queued : Option ℕ
  pub sessions : List ℕ
  pub phase : Phase

-- Whether the thread of a service is in `run`.
abbrev pub runs_at : ℕ → List Service → Bool
runs_at i [] = false
runs_at zero (s ∷ ss) = not s.returned
runs_at (suc i) (s ∷ ss) = runs_at i ss

-- `io_context::run` of a service: whether it may return as things are. It does not while an
-- asynchronous operation of that service is outstanding.
pub record Asio : Type 0 where
  pub run_returns : Process → ℕ → Bool
  pub accept_keeps : (p : Process) (b : ℕ) → p.accepting ≡ some b → run_returns p p.acceptor ≡ false

-- `StartAccept`: the new session gets the next service, which the handler is bound to. `none` is a
-- remainder by 0.
unfoldable pub start_accept : Process → Option Process
start_accept p =
    let (found, pool) = get_io_service p.pool in
    elim found [
      | none ↦ none
      | some b ↦
          some (record p { pool = pool; accepting = some b; sessions = p.sessions ++ b ∷ [] })
    ]

-- `HandleAccept`, for an accept that failed or not: it always starts the next one. What it does to the
-- sessions is `handle_accept` of World.
unfoldable pub accepted : Process → Option Process
accepted p = start_accept (record p { queued = none })

-- `main` up to `io_context.run()`. The constructor of the server starts the first accept or, where the
-- port cannot be bound, throws, which ends `main`: the destructor of the pool is next.
unfoldable pub new_server : Bool → Pool → Option Process
new_server binds start =
    let (found, pool) = get_io_service start in
    elim found [
      | none ↦ none
      | some i ↦
          let p : Process = record {
            pool = pool;
            acceptor = i;
            accepting = none;
            queued = none;
            sessions = [];
            phase = serving;
          } in
          if binds
          then start_accept p
          else some (record p { pool = reset_all pool; phase = closing 1 0 })
    ]

-- The handler of the signal up to the joins. `async_wait` is called once.
unfoldable pub signal : Process → Process
signal p = elim p.phase [
  | serving ↦ record p { pool = reset_all p.pool; phase = stopping 0 }
  | stopping i ↦ p
  | closing code i ↦ p
  | exited code ↦ p
]

-- The handler of the signal returns, its `Stop` having returned or thrown, and then `main`, where the
-- destructor of the server closes the acceptor; then the pool is destroyed.
unfoldable pub left : Process → Process
left p = record p { pool = reset_all p.pool; accepting = none; phase = closing 0 0 }

-- `Stop` tries to get past one more `join`.
unfoldable pub join_next : Process → Process
join_next p = elim p.phase [
  | serving ↦ p
  | stopping i ↦ elim (join i p.pool) [
    | finished ↦ left p
    | throws ↦ left p
    | waits ↦ p
    | joined pool ↦ record p { pool = pool; phase = stopping (suc i) }
  ]
  | closing code i ↦ elim (join i p.pool) [
    | finished ↦ record p { phase = exited code }
    | throws ↦ record p { phase = exited code }
    | waits ↦ p
    | joined pool ↦ record p { pool = pool; phase = closing code (suc i) }
  ]
  | exited code ↦ p
]

-- The outstanding accept completes, on the thread of the acceptor's service; its handler runs, on the
-- thread of the service that it is bound to; the `run` of a service returns; a signal comes; `Stop`
-- goes on.
pub data Event : Type 0 where
  arrives handles signals joins : Event
  leaves : ℕ → Event

-- An event that cannot happen changes nothing.
unfoldable pub step : Asio → Event → Process → Option Process
step asio arrives p = elim p.accepting [
  | none ↦ some p
  | some b ↦
      if runs_at p.acceptor p.pool.io_service
      then some (record p { accepting = none; queued = some b })
      else some p
]
step asio handles p = elim p.queued [
  | none ↦ some p
  | some b ↦ if runs_at b p.pool.io_service then accepted p else some p
]
step asio signals p = some (signal p)
step asio joins p = some (join_next p)
step asio (leaves i) p =
    if asio.run_returns p i
    then some
        (record p { pool = record p.pool { io_service = adjust returned_one i p.pool.io_service } })
    else some p

unfoldable pub run : Asio → List Event → Process → Option Process
run asio [] p = some p
run asio (e ∷ es) p = elim (step asio e p) [ none ↦ none | some q ↦ run asio es q ]

unfoldable pub run_from : Asio → List Event → Option Process → Option Process
run_from asio es none = none
run_from asio es (some p) = run asio es p

-- `main` with `size` hardware threads and a port that can be bound or not, after these events.
unfoldable pub main : Asio → ℕ → Bool → List Event → Option Process
unfolding run_from
main asio size binds es = run_from asio es (new_server binds (new_pool size))
