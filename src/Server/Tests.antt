-- ===== src/Server/Tests.antt =====
-- A server on two hardware threads. Here a service's `run` returns as soon as it may: its guard is
-- reset, no accept is outstanding on it and no handler waits on it.
use coroutine_server.Prelude.{
  ℕ, ◌≡◌, refl, Bool, true, false, not, ◌&&◌, Option, none, some, List, [], ◌∷◌, ◌==◌, arith,
}
use coroutine_server.Pool.{Service, new_pool, get_io_service, join, service_at}
use coroutine_server.Server.{
  Process, Phase, exited, Asio, Event, arrives, handles, signals, joins, leaves, start_accept,
  accepted, new_server, signal, left, join_next, step, run, main,
}
use coroutine_server.Server.Busy.{on_time}
use coroutine_server.Server.Shutdown.{Unfinished, signalled, prompt, prompt_from, main-Unfinished}

abbrev unguarded : Option Service → Bool
unguarded none = false
unguarded (some s) = not s.guarded

abbrev waits_on : Option ℕ → ℕ → Bool
waits_on none i = false
waits_on (some b) i = b == i

abbrev accepts_on : Option ℕ → ℕ → ℕ → Bool
accepts_on none a i = true
accepts_on (some b) a i = not (a == i)

abbrev run_returns : Process → ℕ → Bool
run_returns p i =
    accepts_on p.accepting p.acceptor i
    && (unguarded (service_at i p.pool.io_service) && not (waits_on p.queued i))

accept_keeps : (p : Process) (b : ℕ) → p.accepting ≡ some b → run_returns p p.acceptor ≡ false
accept_keeps p b e = ground (arith, e)

abbrev eager : Asio
eager = record { run_returns = run_returns; accept_keeps = accept_keeps }

abbrev phase_of : Option Process → Option Phase
phase_of none = none
phase_of (some p) = some p.phase

abbrev shutdown : List Event
shutdown =
    arrives ∷ handles ∷ signals ∷ leaves 0 ∷ leaves 1 ∷ joins ∷ arrives ∷ handles ∷ joins ∷ []

shutdown-on_time : prompt_from eager shutdown (new_server true (new_pool 2)) ≡ true
unfolding main new_server new_pool get_io_service start_accept run step signal join_next join
    accepted left prompt prompt_from on_time
shutdown-on_time = refl

main-Unfinished_example :
    (q : Process) × (main eager 2 true shutdown ≡ some q) × Unfinished (signalled shutdown false) q
main-Unfinished_example = main-Unfinished eager 2 shutdown (omega arith) shutdown-on_time

-- The acceptor's thread returns between the completion of an accept and its handler.
abbrev late : List Event
late =
    signals
    ∷ arrives
    ∷ leaves 0
    ∷ joins
    ∷ leaves 1
    ∷ handles
    ∷ leaves 1
    ∷ joins
    ∷ joins
    ∷ joins
    ∷ []

main-late : phase_of (main eager 2 true late) ≡ some (exited 0)
unfolding main new_server new_pool get_io_service start_accept run step signal join_next join
    accepted left
main-late = refl

-- The port cannot be bound.
main-unbound :
    phase_of (main eager 2 false (leaves 0 ∷ leaves 1 ∷ joins ∷ joins ∷ joins ∷ []))
    ≡ some (exited 1)
unfolding main new_server new_pool get_io_service start_accept run step signal join_next join
    accepted left
main-unbound = refl
