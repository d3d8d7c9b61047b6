-- ===== src/Logic/Worker/Fifo.antt =====
-- The worker deals the messages that the queue took, each once and in their order, and ends only when
-- none is left.
use coroutine_server.Prelude.{
  ℕ, ◌+◌, ◌≤◌, ◌≡◌, sym, ap, ◌∙◌, Bool, true, ◌||◌, List, [], ◌∷◌, ◌++◌, append_assoc, append-nil,
  Bytes, if◌then◌else◌, arith, length, ◌==◌, map, inl, inr, List-cases,
}
use coroutine_server.Wire.Endian.{ByteOrder}
use coroutine_server.Logic.Json.{JsonLib}
use coroutine_server.Logic.Replies.{Env}
use coroutine_server.Logic.Dispatch.{LogicNode, post_msg_lem, next_round}
use coroutine_server.Logic.Worker.{
  awake, checked, asleep, ended, Worker, has_mutex, Event, posts, checks, sleeps, wakes, stops,
  post, check, step, run,
}

-- All that the queue has taken: what was dealt, then what waits.
abbrev pub taken : Worker → List LogicNode
taken w = w.dealt ++ w.msg_que

-- Whether a post is taken.
abbrev pub refused : Worker → Bool
refused w = has_mutex w.phase || length w.msg_que == 10000

-- What an event adds.
abbrev pub taken_now : Event → Worker → List LogicNode
taken_now (posts n) w = if refused w then [] else n ∷ []
taken_now (checks env) w = []
taken_now sleeps w = []
taken_now wakes w = []
taken_now stops w = []

-- The queue is bounded; while the worker is about to wait or waits, it is empty; the worker ends only
-- when it is stopped.
pub record FifoInv (w : Worker) : Type 0 where
  pub bounded : length w.msg_que ≤ 10000
  pub idle : w.phase ≡ checked → w.msg_que ≡ []
  pub waiting : w.phase ≡ asleep → w.msg_que ≡ []

module _ {Json : Type 0} (lib : JsonLib Json) (order : ByteOrder) (hasher : Bytes → ℕ) where
  post-FifoInv : (n : LogicNode) (w : Worker) → FifoInv w → FifoInv (post n w)
  unfolding post
  post-FifoInv n w v = ground (arith, post_msg_lem n w.msg_que v.bounded, v.idle, v.waiting)

  check-FifoInv : (env : Env) (w : Worker) → FifoInv w → FifoInv (check lib order hasher env w)
  unfolding check next_round
  check-FifoInv env w v = elim (List-cases w.msg_que) [
    | inl e ↦ ground (arith, v, e)
    | inr (n, q, e) ↦ ground (arith, v, e)
  ]

  pub step-FifoInv : (e : Event) (w : Worker) → FifoInv w → FifoInv (step lib order hasher e w)
  unfolding step
  step-FifoInv (posts n) w v = post-FifoInv n w v
  step-FifoInv (checks env) w v = check-FifoInv env w v
  step-FifoInv sleeps w v = ground (arith, v)
  step-FifoInv wakes w v = ground (arith, v)
  step-FifoInv stops w v = ground (arith, v)

  pub run-FifoInv : (es : List Event) (w : Worker) → FifoInv w → FifoInv (run lib order hasher es w)
  unfolding run
  run-FifoInv [] w v = v
  run-FifoInv (e ∷ es) w v = run-FifoInv es (step lib order hasher e w) (step-FifoInv e w v)

  -- The posts of a schedule that are taken, in their order.
  abbrev pub accepted : List Event → Worker → List LogicNode
  accepted [] w = []
  accepted (e ∷ es) w = taken_now e w ++ accepted es (step lib order hasher e w)

  post-taken :
      (n : LogicNode) (w : Worker) → FifoInv w → taken (post n w) ≡ taken w ++ taken_now (posts n) w
  unfolding post
  post-taken n w v = ground (
    arith,
    post_msg_lem n w.msg_que v.bounded,
    append_assoc w.dealt w.msg_que (n ∷ []),
    append-nil (w.dealt ++ w.msg_que),
  )

  check-taken : (env : Env) (w : Worker) → taken (check lib order hasher env w) ≡ taken w
  unfolding check next_round
  check-taken env w = elim (List-cases w.msg_que) [
    | inl e ↦ ground (arith, e)
    | inr (n, q, e) ↦ ground (arith, e, append_assoc w.dealt (n ∷ []) q)
  ]

  pub step-taken :
      (e : Event) (w : Worker)
      → FifoInv w
      → taken (step lib order hasher e w) ≡ taken w ++ taken_now e w
  unfolding step
  step-taken (posts n) w v = post-taken n w v
  step-taken (checks env) w v = check-taken env w ∙ sym (append-nil (taken w))
  step-taken sleeps w v = sym (append-nil (taken w))
  step-taken wakes w v = sym (append-nil (taken w))
  step-taken stops w v = sym (append-nil (taken w))

  -- From a state with the invariant, through any schedule, what was dealt and what waits grows
  -- exactly by the posts that were taken, each once and in their order, and at most 10000 messages
  -- wait; a post is refused only while the queue is full or the worker has the mutex.
  pub run-taken :
      (es : List Event) (w : Worker)
      → FifoInv w
      → let w' = run lib order hasher es w in
        (taken w' ≡ taken w ++ accepted es w) × (length w'.msg_que ≤ 10000)
  unfolding run
  run-taken [] w v = (sym (append-nil (taken w)), v.bounded)
  run-taken (e ∷ es) w v =
      let w' = step lib order hasher e w in
      let (grown, small) = run-taken es w' (step-FifoInv e w v) in
      (
        grown
            ∙ ap (λ (ms : List LogicNode). ms ++ accepted es w') (step-taken e w v)
            ∙ append_assoc (taken w) (taken_now e w) (accepted es w'),
        small,
      )

  pub check-deals :
      (env : Env) (n : LogicNode) (q : List LogicNode) (w : Worker)
      → w.phase ≡ awake
      → w.msg_que ≡ n ∷ q
      → let w' = check lib order hasher env w in
        (w'.phase ≡ w.phase)
        × (w'.b_stop ≡ w.b_stop)
        × (w'.msg_que ≡ q)
        × (w'.dealt ≡ w.dealt ++ n ∷ [])
  unfolding check next_round
  check-deals env n q w a e = ground (arith, a, e)

  -- A worker that is awake and stopped deals all that waits, in order, and then ends, with one look
  -- more than messages wait.
  pub run-ends :
      (envs : List Env) (w : Worker)
      → w.phase ≡ awake
      → w.b_stop ≡ true
      → length envs ≡ length w.msg_que + 1
      → let w' = run lib order hasher (map checks envs) w in
        (w'.phase ≡ ended) × (w'.msg_que ≡ []) × (w'.dealt ≡ w.dealt ++ w.msg_que)
  unfolding run step
  run-ends [] w a s h = absurd (omega arith)
  run-ends (env ∷ envs) w a s h = elim (List-cases w.msg_que) [
    | inl e ↦ elim (List-cases envs) [
      | inl last ↦ unfold check next_round in ground (arith, a, s, e, last, append-nil w.dealt)
      | inr (x, xs, more) ↦ absurd (ground (arith, e, more))
    ]
    | inr (n, q, e) ↦
        let w' = check lib order hasher env w in
        let (a', s', q', d') = check-deals env n q w a e in
        let (end, empty, all) = run-ends envs w' (a' ∙ a) (s' ∙ s) (ground (arith, e, q')) in
        (end, empty, all ∙ ground (arith, e, q', d', append_assoc w.dealt (n ∷ []) q))
  ]
