-- ===== src/Logic/Worker/Tests.antt =====
-- The worker with two messages, at concrete schedules.
use coroutine_server.Prelude.{◌≡◌, ◌≤◌, refl, true, false, [], ◌∷◌, ◌++◌, codes, length, map, arith}
use coroutine_server.Wire.Endian.{little_endian}
use coroutine_server.Logic.Dispatch.{LogicNode}
use coroutine_server.Logic.Tests.{toy, env, message, registered}
use coroutine_server.Logic.Worker.{
  awake, checked, asleep, ended, Worker, posts, checks, sleeps, stops, step, run,
}
use coroutine_server.Logic.Worker.Fifo.{FifoInv, taken, accepted, run-taken, run-ends}
use coroutine_server.Logic.Dispatch.{post_msg, next_round}
use coroutine_server.Logic.Worker.Served.{run-served}
use coroutine_server.Logic.Worker.Wakeups.{stop-missed}

abbrev login : LogicNode
login = message 2003 (codes "C")

abbrev chat : LogicNode
chat = message 2010 (codes "M")

abbrev idle : Worker
idle = record { msg_que = []; b_stop = false; phase = asleep; dealt = []; world = registered }

abbrev busy : Worker
busy = record idle { phase = awake; msg_que = login ∷ chat ∷ [] }

idle-FifoInv : FifoInv idle
idle-FifoInv = ground arith

busy-FifoInv : FifoInv busy
busy-FifoInv = ground arith

run-taken_example :
    let es =
      posts login ∷ checks env ∷ posts chat ∷ checks env ∷ checks env ∷ posts login ∷ sleeps ∷ [] in
    let w' = run toy little_endian length es idle in
    (taken w' ≡ taken idle ++ accepted toy little_endian length es idle)
    × (length w'.msg_que ≤ 10000)
run-taken_example =
    run-taken toy little_endian length
      (posts login ∷ checks env ∷ posts chat ∷ checks env ∷ checks env ∷ posts login ∷ sleeps ∷ [])
      idle idle-FifoInv

run-ends_example :
    let w = record busy { b_stop = true } in
    let w' = run toy little_endian length (map checks (env ∷ env ∷ env ∷ [])) w in
    (w'.phase ≡ ended) × (w'.msg_que ≡ []) × (w'.dealt ≡ w.dealt ++ w.msg_que)
run-ends_example =
    run-ends toy little_endian length (env ∷ env ∷ env ∷ []) (record busy { b_stop = true }) refl
      refl refl

stop-missed_example :
    let w' =
      run toy little_endian length
        (stops ∷ sleeps ∷ map checks (env ∷ []))
        (record idle { phase = checked }) in
    (w'.phase ≡ asleep) × (w'.b_stop ≡ true)
stop-missed_example =
    stop-missed toy little_endian length (env ∷ []) (record idle { phase = checked }) refl

-- A worker that waits, and two messages that come at once.
run-served_example :
    let w' =
      run toy little_endian length
        (map checks (env ∷ env ∷ []))
        (run toy little_endian length (posts login ∷ posts chat ∷ []) idle) in
    (w'.msg_que ≡ [])
    × (w'.dealt
        ≡ taken idle ++ accepted toy little_endian length (posts login ∷ posts chat ∷ []) idle)
unfolding run step post_msg next_round
run-served_example =
    run-served toy little_endian length (posts login ∷ posts chat ∷ []) (env ∷ env ∷ []) idle
      idle-FifoInv (ground arith) (omega arith)
