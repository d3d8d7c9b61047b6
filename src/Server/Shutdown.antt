-- ===== src/Server/Shutdown.antt =====
-- The shutdown of the program while the acceptor listens.
use coroutine_server.Prelude.{
  ◌<◌, ◌||◌, ℕ, suc, ◌≤◌, ◌≡◌, refl, Bool, true, false, ◌&&◌, Option, none, some, List, [], ◌∷◌,
  ◌⊎◌, inl, inr, if◌then◌else◌, arith, Bool-cases,
}
use coroutine_server.Pool.{new_pool, adjust, joined_one}
use coroutine_server.Server.{
  serving, stopping, Process, runs_at, Asio, new_server, join_next, Event, step, run, run_from,
  main,
}
use coroutine_server.Server.Busy.{
  on_time, is_signal, Busy, new_server-Busy, join_next_lem, step-Busy,
}
use coroutine_server.Server.Threads.{Unguarded}

unfoldable pub prompt : Asio → List Event → Process → Bool
prompt asio [] p = true
prompt asio (e ∷ es) p =
    on_time e p && elim (step asio e p) [ none ↦ true | some q ↦ prompt asio es q ]

unfoldable pub prompt_from : Asio → List Event → Option Process → Bool
prompt_from asio es none = true
prompt_from asio es (some p) = prompt asio es p

-- Whether a signal has come: before, as `g` says, or with an event.
abbrev pub signalled : List Event → Bool → Bool
signalled [] g = g
signalled (e ∷ es) g = signalled es (is_signal e || g)

-- The handler of the signal is at the thread `i`, which is not after the acceptor's; no guard is
-- held; and if that thread has returned, the next turn of `Stop` joins it and goes on, else it waits.
abbrev pub Stops : ℕ → Process → Type 0
Stops i p =
    (p.phase ≡ stopping i)
    × (i ≤ p.acceptor)
    × Unguarded p.pool.io_service
    × ((join_next p).phase ≡ stopping (if runs_at i p.pool.io_service then i else suc i))

-- Before a signal `main` is in `io_context.run()`, then in the handler of the signal.
abbrev pub Unfinished : Bool → Process → Type 0
Unfinished g p = ((g ≡ false) × (p.phase ≡ serving)) ⊎ ((g ≡ true) × (i : ℕ) × Stops i p)

run-Busy :
    (asio : Asio) (es : List Event) (g : Bool) (p : Process)
    → prompt asio es p ≡ true
    → Busy g p
    → (q : Process) × (run asio es p ≡ some q) × Busy (signalled es g) q
unfolding run prompt
run-Busy asio [] g p t b = (p, refl, b)
run-Busy asio (e ∷ es) g p t b = elim (Bool-cases (on_time e p)) [
  | inl o ↦
      let (q, first, busy) = step-Busy asio e g p o b in
      let (r, rest, last) =
        run-Busy asio es (is_signal e || g) q (ground (arith, o, first, t)) busy in
      (r, ground (arith, first, rest), last)
  | inr o ↦ absurd (ground (arith, o, t))
]

Busy-Unfinished : (g : Bool) (p : Process) → Busy g p → Unfinished g p
Busy-Unfinished g p b = elim b.unjoined [
  | inl (n, e, j) ↦ inl (n, e)
  | inr (c, i, e, l, u, j) ↦ inr (c, i, (e, l, u, goes_on i e (join_next_lem g p i b e l j)))
]
  where
    goes_on :
        (i : ℕ)
        → p.phase ≡ stopping i
        → ((join_next p ≡ p) × (runs_at i p.pool.io_service ≡ true))
          ⊎ ((join_next p ≡ record p {
            pool = record p.pool { io_service = adjust joined_one i p.pool.io_service };
            phase = stopping (suc i);
          })
              × (runs_at i p.pool.io_service ≡ false)
              × (i < p.acceptor))
        → (join_next p).phase ≡ stopping (if runs_at i p.pool.io_service then i else suc i)
    goes_on i e (inl (same, r)) = ground (arith, same, r, e)
    goes_on i e (inr (changed, r, less)) = ground (arith, changed, r, e)

-- With at least one hardware thread and a port that can be bound, the program does not end: after any
-- events (completions of accepts, handlers of accepts, returns of threads, signals, joins) `main` is in
-- `io_context.run()` if no signal has come, and otherwise in the handler of the signal, with no guard
-- held, whose `Stop` is at a thread not after the acceptor's, which its next turn joins if that thread
-- has returned, and waits for if not. The condition is that the acceptor's thread never returns between
-- the completion of an accept and its `HandleAccept`; that `run` does not return during an accept is
-- the law of `Asio`.
pub main-Unfinished :
    (asio : Asio) (size : ℕ) (es : List Event)
    → 1 ≤ size
    → prompt_from asio es (new_server true (new_pool size)) ≡ true
    → (q : Process) × (main asio size true es ≡ some q) × Unfinished (signalled es false) q
unfolding main run_from prompt_from
main-Unfinished asio size es h t =
    let (p, made, busy) = new_server-Busy size h in
    let (q, e, last) = run-Busy asio es false p (ground (arith, made, t)) busy in
    (q, ground (arith, made, e), Busy-Unfinished (signalled es false) q last)
