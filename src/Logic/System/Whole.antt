-- ===== src/Logic/System/Whole.antt =====
-- The worker thread and the sessions, step by step, do what whole moves in a row do: the moves of the
-- sessions, and among them the dealing of the messages that were posted.
use coroutine_server.Prelude.{
  ℕ, ◌≡◌, inl, inr, refl, sym, ap, Bool, true, List, [], ◌∷◌, ◌++◌, append_assoc, append-nil, Bytes,
  arith, List-cases, map,
}
use coroutine_server.Wire.Endian.{ByteOrder}
use coroutine_server.World.{World, handle_accept, end_session, write_done, destroy}
use coroutine_server.Logic.Json.{JsonLib}
use coroutine_server.Logic.Replies.{Env}
use coroutine_server.Logic.Dispatch.{LogicNode, deal, next_round}
use coroutine_server.Logic.Worker.{
  ended, Worker, Event, posts, checks, sleeps, wakes, stops, post, look, check, stop, step,
}
use coroutine_server.Logic.Worker.Fifo.{FifoInv, taken, taken_now, step-taken, step-FifoInv}
use coroutine_server.Logic.Worker.Served.{deal_all, step-Handled}
use coroutine_server.Logic.System.{with_world, Runs, rests, works, accepts, ends, writes, destroys}

-- What the input and output of the sessions do, and the dealing of a message.
pub data Act : Type 0 where
  accepting : ℕ → Bool → Act
  ending : ℕ → Act
  writing : ℕ → Bool → Act
  destroying : ℕ → Act
  dealing : Env → LogicNode → Act

-- The messages that are dealt among the acts, and the acts of the sessions.
abbrev pub deals_in : List Act → List LogicNode
deals_in [] = []
deals_in (accepting sid failed ∷ as_) = deals_in as_
deals_in (ending sid ∷ as_) = deals_in as_
deals_in (writing sid failed ∷ as_) = deals_in as_
deals_in (destroying sid ∷ as_) = deals_in as_
deals_in (dealing env n ∷ as_) = n ∷ deals_in as_

abbrev pub others_in : List Act → List Act
others_in [] = []
others_in (accepting sid failed ∷ as_) = accepting sid failed ∷ others_in as_
others_in (ending sid ∷ as_) = ending sid ∷ others_in as_
others_in (writing sid failed ∷ as_) = writing sid failed ∷ others_in as_
others_in (destroying sid ∷ as_) = destroying sid ∷ others_in as_
others_in (dealing env n ∷ as_) = others_in as_

deals_in-append : (xs ys : List Act) → deals_in (xs ++ ys) ≡ deals_in xs ++ deals_in ys
deals_in-append [] ys = refl
deals_in-append (accepting sid failed ∷ xs) ys = deals_in-append xs ys
deals_in-append (ending sid ∷ xs) ys = deals_in-append xs ys
deals_in-append (writing sid failed ∷ xs) ys = deals_in-append xs ys
deals_in-append (destroying sid ∷ xs) ys = deals_in-append xs ys
deals_in-append (dealing env n ∷ xs) ys = ap (◌∷◌ n) (deals_in-append xs ys)

others_in-append : (xs ys : List Act) → others_in (xs ++ ys) ≡ others_in xs ++ others_in ys
others_in-append [] ys = refl
others_in-append (accepting sid failed ∷ xs) ys =
    ap (◌∷◌ (accepting sid failed)) (others_in-append xs ys)
others_in-append (ending sid ∷ xs) ys = ap (◌∷◌ (ending sid)) (others_in-append xs ys)
others_in-append (writing sid failed ∷ xs) ys =
    ap (◌∷◌ (writing sid failed)) (others_in-append xs ys)
others_in-append (destroying sid ∷ xs) ys = ap (◌∷◌ (destroying sid)) (others_in-append xs ys)
others_in-append (dealing env n ∷ xs) ys = others_in-append xs ys

-- The worker ends only when it is stopped.
abbrev pub Stopping : Worker → Type 0
Stopping w = w.phase ≡ ended → w.b_stop ≡ true

module _ {Json : Type 0} (lib : JsonLib Json) (order : ByteOrder) (hasher : Bytes → ℕ) where
  unfoldable pub act : Act → World → World
  act (accepting sid failed) w = handle_accept sid failed w
  act (ending sid) w = end_session sid w
  act (writing sid failed) w = write_done sid failed w
  act (destroying sid) w = destroy sid w
  act (dealing env n) w = deal lib order hasher env n w

  unfoldable pub acts : List Act → World → World
  unfolding act
  acts [] w = w
  acts (a ∷ as_) w = acts as_ (act a w)

  acts-append : (xs ys : List Act) (w : World) → acts (xs ++ ys) w ≡ acts ys (acts xs w)
  unfolding acts
  acts-append [] ys w = refl
  acts-append (x ∷ xs) ys w = acts-append xs ys (act x w)

  -- The posts that were taken in a run, and the acts of its sessions, in their order.
  abbrev pub posted_in : {u v : Worker} → Runs lib order hasher u v → List LogicNode
  posted_in rests = []
  posted_in (works {v = v} r e) = posted_in r ++ taken_now e v
  posted_in (accepts r sid failed) = posted_in r
  posted_in (ends r sid) = posted_in r
  posted_in (writes r sid failed) = posted_in r
  posted_in (destroys r sid) = posted_in r

  abbrev pub sessions_in : {u v : Worker} → Runs lib order hasher u v → List Act
  sessions_in rests = []
  sessions_in (works r e) = sessions_in r
  sessions_in (accepts r sid failed) = sessions_in r ++ accepting sid failed ∷ []
  sessions_in (ends r sid) = sessions_in r ++ ending sid ∷ []
  sessions_in (writes r sid failed) = sessions_in r ++ writing sid failed ∷ []
  sessions_in (destroys r sid) = sessions_in r ++ destroying sid ∷ []

  -- What a run has done, as acts one after another.
  pub record Whole (u v : Worker) (posted : List LogicNode) (sessions : List Act) : Type 0 where
    pub whole : List Act
    pub world : v.world ≡ acts whole u.world
    pub others : others_in whole ≡ sessions
    pub deals : v.dealt ≡ u.dealt ++ deals_in whole
    pub queue : v.dealt ++ v.msg_que ≡ (u.dealt ++ u.msg_que) ++ posted
    pub fifo : FifoInv v
    pub stopping : Stopping v

  jobs_acts : List (Env × LogicNode) → List Act
  jobs_acts [] = []
  jobs_acts ((env, n) ∷ jobs) = dealing env n ∷ jobs_acts jobs

  acts-deal_all :
      (jobs : List (Env × LogicNode)) (w : World)
      → acts (jobs_acts jobs) w ≡ deal_all lib order hasher jobs w
  unfolding acts jobs_acts
  acts-deal_all [] w = refl
  acts-deal_all ((env, n) ∷ jobs) w = acts-deal_all jobs (deal lib order hasher env n w)

  deals_in-jobs_acts :
      (jobs : List (Env × LogicNode)) → deals_in (jobs_acts jobs) ≡ map (λ j. j.1) jobs
  unfolding jobs_acts
  deals_in-jobs_acts [] = refl
  deals_in-jobs_acts ((env, n) ∷ jobs) = ap (◌∷◌ n) (deals_in-jobs_acts jobs)

  others_in-jobs_acts : (jobs : List (Env × LogicNode)) → others_in (jobs_acts jobs) ≡ []
  unfolding jobs_acts
  others_in-jobs_acts [] = refl
  others_in-jobs_acts ((env, n) ∷ jobs) = others_in-jobs_acts jobs

  check-Stopping : (env : Env) (w : Worker) → Stopping w → Stopping (check lib order hasher env w)
  unfolding check look next_round
  check-Stopping env w h = elim (List-cases w.msg_que) [
    | inl e ↦ ground (arith, e, h)
    | inr (n, q, e) ↦ ground (arith, e, h)
  ]

  step-Stopping : (e : Event) (w : Worker) → Stopping w → Stopping (step lib order hasher e w)
  unfolding step post stop
  step-Stopping (posts n) w h = ground (arith, h)
  step-Stopping (checks env) w h = check-Stopping env w h
  step-Stopping sleeps w h = ground (arith, h)
  step-Stopping wakes w h = ground (arith, h)
  step-Stopping stops w h = ground (arith, h)

  works-Whole :
      (u v : Worker) (posted : List LogicNode) (sessions : List Act) (e : Event)
      → Whole u v posted sessions
      → Whole u (step lib order hasher e v) (posted ++ taken_now e v) sessions
  works-Whole u v posted sessions e h =
      let done = step-Handled lib order hasher e v in
      let more = jobs_acts done.jobs in
      record {
        whole = h.whole ++ more;
        world = ground (
          arith,
          done.handled,
          h.world,
          acts-append h.whole more u.world,
          acts-deal_all done.jobs (acts h.whole u.world),
        );
        others = ground (
          arith,
          h.others,
          others_in-append h.whole more,
          others_in-jobs_acts done.jobs,
          append-nil sessions,
        );
        deals = ground (
          arith,
          done.logged,
          h.deals,
          deals_in-append h.whole more,
          deals_in-jobs_acts done.jobs,
          append_assoc u.dealt (deals_in h.whole) (deals_in more),
        );
        queue = ground (
          arith,
          step-taken lib order hasher e v h.fifo,
          h.queue,
          append_assoc (taken u) posted (taken_now e v),
        );
        fifo = step-FifoInv lib order hasher e v h.fifo;
        stopping = step-Stopping e v h.stopping;
      }

  session-Whole :
      (u v : Worker) (posted : List LogicNode) (sessions : List Act) (a : Act)
      → deals_in (a ∷ []) ≡ []
      → others_in (a ∷ []) ≡ a ∷ []
      → Whole u v posted sessions
      → Whole u (with_world v (act a v.world)) posted (sessions ++ a ∷ [])
  unfolding acts
  session-Whole u v posted sessions a no_deal other h = record {
    whole = h.whole ++ a ∷ [];
    world = ground (arith, h.world, acts-append h.whole (a ∷ []) u.world);
    others = ground (arith, h.others, others_in-append h.whole (a ∷ []), other);
    deals =
        ground (
          arith,
          h.deals,
          deals_in-append h.whole (a ∷ []),
          no_deal,
          append-nil (deals_in h.whole),
        );
    queue = h.queue;
    fifo = record { bounded = h.fifo.bounded; idle = h.fifo.idle; waiting = h.fifo.waiting };
    stopping = h.stopping;
  }

  -- From a worker with the invariant of its queue that has ended only if it is stopped, however the
  -- steps of the worker thread, the posts to its queue and the moves of the sessions interleave: the
  -- world is what whole acts make of it, one after another, among which the acts of the sessions are
  -- those of the run in their order and the messages that are dealt are those that the worker has taken
  -- out of its queue, in their order; these and what still waits are all the messages whose posts
  -- were taken, each once and in the order of the posts; at most 10000 messages wait, none while the
  -- worker waits; and the worker has ended only if it is stopped.
  pub Runs-Whole :
      {u v : Worker} (r : Runs lib order hasher u v)
      → FifoInv u
      → Stopping u
      → Whole u v (posted_in r) (sessions_in r)
  unfolding act acts
  Runs-Whole {u = u} rests f h = record {
    whole = [];
    world = refl;
    others = refl;
    deals = sym (append-nil u.dealt);
    queue = sym (append-nil (u.dealt ++ u.msg_que));
    fifo = f;
    stopping = h;
  }
  Runs-Whole {u = u} (works {v = v} r e) f h =
      works-Whole u v (posted_in r) (sessions_in r) e (Runs-Whole r f h)
  Runs-Whole {u = u} (accepts {v = v} r sid failed) f h =
      session-Whole u v (posted_in r) (sessions_in r) (accepting sid failed) refl refl
        (Runs-Whole r f h)
  Runs-Whole {u = u} (ends {v = v} r sid) f h =
      session-Whole u v (posted_in r) (sessions_in r) (ending sid) refl refl (Runs-Whole r f h)
  Runs-Whole {u = u} (writes {v = v} r sid failed) f h =
      session-Whole u v (posted_in r) (sessions_in r) (writing sid failed) refl refl
        (Runs-Whole r f h)
  Runs-Whole {u = u} (destroys {v = v} r sid) f h =
      session-Whole u v (posted_in r) (sessions_in r) (destroying sid) refl refl (Runs-Whole r f h)
