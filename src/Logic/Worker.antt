-- ===== src/Logic/Worker.antt =====
-- The worker thread of `LogicSystem` (CoroutineServer/LogicSystem.h and LogicSystem.cpp): its loop
-- `DealMsg` with the waiting on `_consume`, the posts to its queue, and the destructor's stop. The
-- steps are those between which other threads can run.
pub mod Fifo
pub mod Served
pub mod Wakeups
mod Tests
use coroutine_server.Prelude.{ℕ, Bool, true, false, ◌&&◌, List, [], ◌∷◌, ◌++◌, Bytes, if◌then◌else◌}
use coroutine_server.Wire.Endian.{ByteOrder}
use coroutine_server.World.{World}
use coroutine_server.Logic.Json.{JsonLib}
use coroutine_server.Logic.Replies.{Env}
use coroutine_server.Logic.Dispatch.{LogicNode, post_msg, deal, next_round, waits, ends, deals}

-- Where the worker stands: about to take the mutex and look at the queue; with the mutex, having seen
-- that it must wait; waiting on the condition variable; or at the end of its loop.
pub data Phase : Type 0 where
  awake checked asleep ended : Phase

pub record Worker : Type 0 where
  -- Oldest first.
  pub msg_que : List LogicNode
  pub b_stop : Bool
  pub phase : Phase
  -- The messages that were taken out of the queue, oldest first.
  pub dealt : List LogicNode
  pub world : World

abbrev pub has_mutex : Phase → Bool
has_mutex awake = false
has_mutex checked = true
has_mutex asleep = false
has_mutex ended = false

-- `notify_one` wakes the worker if it waits; otherwise it has no effect.
abbrev pub notified : Phase → Phase
notified awake = awake
notified checked = checked
notified asleep = awake
notified ended = ended

pub data Event : Type 0 where
  posts : LogicNode → Event
  checks : Env → Event
  sleeps wakes stops : Event

-- `PostMsgToQue` by a session. While the worker has the mutex the session waits for it: then this is no
-- step, and the post is a later event.
unfoldable pub post : LogicNode → Worker → Worker
post n w =
    if has_mutex w.phase
    then w
    else let (q, notify) = post_msg n w.msg_que in
      record w { msg_que = q; phase = if notify then notified w.phase else w.phase }

-- The end of the wait inside `wait`.
abbrev pub fall_asleep : Phase → Phase
fall_asleep awake = awake
fall_asleep checked = asleep
fall_asleep asleep = asleep
fall_asleep ended = ended

-- `_b_stop = true; _consume.notify_one();`, which takes no mutex.
unfoldable pub stop : Worker → Worker
stop w = record w { b_stop = true; phase = notified w.phase }

module _ {Json : Type 0} (lib : JsonLib Json) (order : ByteOrder) (hasher : Bytes → ℕ) where
  -- The look at the queue under the mutex, and the handling of the message that is there.
  unfoldable pub look : Env → Worker → Worker
  look env w = elim (next_round w.b_stop w.msg_que) [
    | waits ↦ record w { phase = checked }
    | ends ↦ record w { phase = ended }
    | deals n q ↦ record w {
      msg_que = q;
      dealt = w.dealt ++ n ∷ [];
      world = deal lib order hasher env n w.world;
    }
  ]

  unfoldable pub check : Env → Worker → Worker
  unfolding look
  check env w = elim w.phase [ awake ↦ look env w | checked ↦ w | asleep ↦ w | ended ↦ w ]

  -- A wait may end without a notification.
  unfoldable pub step : Event → Worker → Worker
  unfolding post check stop
  step (posts n) w = post n w
  step (checks env) w = check env w
  step sleeps w = record w { phase = fall_asleep w.phase }
  step wakes w = record w { phase = notified w.phase }
  step stops w = stop w

  unfoldable pub run : List Event → Worker → Worker
  run [] w = w
  run (e ∷ es) w = run es (step e w)
