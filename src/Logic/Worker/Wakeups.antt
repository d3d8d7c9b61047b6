-- ===== src/Logic/Worker/Wakeups.antt =====
-- Which wake-ups the worker can miss: never that of a post, but that of the stop.
use coroutine_server.Prelude.{ℕ, ◌≡◌, refl, ap, ◌∙◌, true, List, [], ◌∷◌, arith, map, Bytes}
use coroutine_server.Wire.Endian.{ByteOrder}
use coroutine_server.Logic.Json.{JsonLib}
use coroutine_server.Logic.Replies.{Env}
use coroutine_server.Logic.Dispatch.{LogicNode, post_msg_lem}
use coroutine_server.Logic.Worker.{
  awake, checked, asleep, Worker, checks, sleeps, stops, post, check, stop, step, run,
}
use coroutine_server.Logic.Worker.Fifo.{FifoInv}

-- A post wakes a worker that waits, and its message is there for it.
pub post-wakes :
    (n : LogicNode) (w : Worker)
    → FifoInv w
    → w.phase ≡ asleep
    → ((post n w).phase ≡ awake) × ((post n w).msg_que ≡ n ∷ [])
unfolding post
post-wakes n w v a = ground (arith, a, v.waiting a, post_msg_lem n w.msg_que v.bounded)

module _ {Json : Type 0} (lib : JsonLib Json) (order : ByteOrder) (hasher : Bytes → ℕ) where
  asleep-check : (env : Env) (w : Worker) → w.phase ≡ asleep → check lib order hasher env w ≡ w
  unfolding check
  asleep-check env w a = ground (arith, a)

  asleep-checks :
      (envs : List Env) (w : Worker)
      → w.phase ≡ asleep
      → run lib order hasher (map checks envs) w ≡ w
  unfolding run step
  asleep-checks [] w a = refl
  asleep-checks (env ∷ envs) w a =
      ap (λ (v : Worker). run lib order hasher (map checks envs) v) (asleep-check env w a)
      ∙ asleep-checks envs w a

  -- A stop that falls between the worker's look at the queue and its wait is missed: the worker then
  -- waits although it is stopped, and by itself it never wakes and never ends.
  pub stop-missed :
      (envs : List Env) (w : Worker)
      → w.phase ≡ checked
      → let w' = run lib order hasher (stops ∷ sleeps ∷ map checks envs) w in
        (w'.phase ≡ asleep) × (w'.b_stop ≡ true)
  unfolding run step stop
  stop-missed envs w c =
      let waiting : Worker = record w { b_stop = true; phase = asleep } in
      ground (arith, c, asleep-checks envs waiting refl)
