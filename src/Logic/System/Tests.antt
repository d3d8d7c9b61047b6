-- ===== src/Logic/System/Tests.antt =====
-- The server with its worker thread: a registration and a login, while a connection is accepted.
use coroutine_server.Prelude.{arith, false, codes, length}
use coroutine_server.Const.{msg_register_req}
use coroutine_server.Wire.Endian.{little_endian}
use coroutine_server.World.{handle_accept}
use coroutine_server.Logic.Tests.{toy, env, message, uuids}
use coroutine_server.Logic.Worker.{Worker, posts, checks, sleeps, step}
use coroutine_server.Logic.System.{new_worker, with_world, Runs, rests, works, accepts}
use coroutine_server.Logic.System.Whole.{Stopping, Whole, posted_in, sessions_in, Runs-Whole}
use coroutine_server.Logic.Worker.Fifo.{FifoInv}

abbrev posted_one : Worker
posted_one = step toy little_endian length (posts (message msg_register_req (codes "C"))) (
    step toy little_endian length sleeps
      (step toy little_endian length (checks env) (new_worker uuids)))

abbrev accepted_one : Worker
accepted_one = with_world posted_one (handle_accept 0 false posted_one.world)

abbrev handled_one : Worker
handled_one = step toy little_endian length (checks env) accepted_one

one_Runs : Runs toy little_endian length (new_worker uuids) handled_one
one_Runs =
    works
      (accepts
        (works (works (works rests (checks env)) sleeps)
          (posts (message msg_register_req (codes "C"))))
        0 false)
      (checks env)

new-FifoInv : FifoInv (new_worker uuids)
new-FifoInv = ground arith

new-Stopping : Stopping (new_worker uuids)
new-Stopping = ground arith

Runs-Whole_example :
    Whole toy little_endian length
      (new_worker uuids)
      handled_one
      (posted_in toy little_endian length one_Runs)
      (sessions_in toy little_endian length one_Runs)
Runs-Whole_example =
    Runs-Whole toy little_endian length {u = new_worker uuids} {v = handled_one} one_Runs
      new-FifoInv new-Stopping
