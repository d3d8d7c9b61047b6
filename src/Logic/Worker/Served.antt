-- ===== src/Logic/Worker/Served.antt =====
-- That no message is left behind: what the worker's queue takes is dealt, and what dealing in any
-- schedule does to the world is to handle the dealt messages one after another.
use coroutine_server.Prelude.{
  ℕ, ◌≤◌, ◌≡◌, ◌≢◌, ◌⊎◌, inl, inr, refl, sym, ◌∙◌, List, [], ◌∷◌, ◌++◌, append_assoc, append-nil,
  map-append, Bytes, arith, length, map, List-cases, subst,
}
use coroutine_server.Wire.Endian.{ByteOrder}
use coroutine_server.World.{World}
use coroutine_server.Logic.Json.{JsonLib}
use coroutine_server.Logic.Replies.{Env}
use coroutine_server.Logic.Dispatch.{LogicNode, deal, next_round}
use coroutine_server.Logic.Worker.{
  Phase, awake, checked, asleep, ended, Worker, Event, posts, checks, sleeps, wakes, stops, post,
  look, check, stop, step, run,
}
use coroutine_server.Logic.Worker.Fifo.{
  FifoInv, taken, accepted, run-taken, run-FifoInv, check-deals,
}

Phase-split : (p : Phase) → (p ≡ awake) ⊎ ((p ≡ checked) ⊎ ((p ≡ asleep) ⊎ (p ≡ ended)))
Phase-split awake = inl refl
Phase-split checked = inr (inl refl)
Phase-split asleep = inr (inr (inl refl))
Phase-split ended = inr (inr (inr refl))

-- While messages wait, the worker looks for them.
abbrev Ready : Worker → Type 0
Ready w = (w.msg_que ≡ []) ⊎ (w.phase ≡ awake)

FifoInv-Ready : (w : Worker) → FifoInv w → w.phase ≢ ended → Ready w
FifoInv-Ready w v on = elim (Phase-split w.phase) [
  | inl a ↦ inr a
  | inr (inl c) ↦ inl (v.idle c)
  | inr (inr (inl s)) ↦ inl (v.waiting s)
  | inr (inr (inr e)) ↦ absurd (on e)
]

module _ {Json : Type 0} (lib : JsonLib Json) (order : ByteOrder) (hasher : Bytes → ℕ) where
  check-idle :
      (env : Env) (w : Worker)
      → w.msg_que ≡ []
      → let w' = check lib order hasher env w in (w'.msg_que ≡ []) × (w'.dealt ≡ w.dealt)
  unfolding check look next_round
  check-idle env w e = ground (arith, e)

  checks-deal :
      (envs : List Env) (w : Worker)
      → Ready w
      → length w.msg_que ≤ length envs
      → let w' = run lib order hasher (map checks envs) w in
        (w'.msg_que ≡ []) × (w'.dealt ≡ w.dealt ++ w.msg_que)
  unfolding run step
  checks-deal [] w r h = elim (List-cases w.msg_que) [
    | inl e ↦ ground (arith, e, append-nil w.dealt)
    | inr (n, q, e) ↦ absurd (ground (arith, e))
  ]
  checks-deal (env ∷ envs) w r h =
      let w' = check lib order hasher env w in
      elim (List-cases w.msg_que) [
        | inl e ↦
            let (none_left, same) = check-idle env w e in
            let (empty, all) = checks-deal envs w' (inl none_left) (ground (arith, none_left)) in
            (empty, all ∙ ground (arith, e, none_left, same))
        | inr (n, q, e) ↦
            let up : w.phase ≡ awake = elim r [
              | inl empty ↦ absurd (ground (arith, e, empty))
              | inr a ↦ a
            ] in
            let (a', s', q', d') = check-deals lib order hasher env n q w up e in
            let (empty, all) = checks-deal envs w' (inr (a' ∙ up)) (ground (arith, e, q')) in
            (empty, all ∙ ground (arith, e, q', d', append_assoc w.dealt (n ∷ []) q))
      ]

  -- From a state with the invariant, after any schedule of posts, looks, waits, wake-ups and stops
  -- that has not ended the worker, as many looks as messages wait deal all the messages that the queue
  -- has taken, each once and in their order: no message is left behind by a wake-up that is missed.
  pub run-served :
      (es : List Event) (envs : List Env) (w : Worker)
      → FifoInv w
      → (run lib order hasher es w).phase ≢ ended
      → length (run lib order hasher es w).msg_que ≤ length envs
      → let w' = run lib order hasher (map checks envs) (run lib order hasher es w) in
        (w'.msg_que ≡ []) × (w'.dealt ≡ taken w ++ accepted lib order hasher es w)
  run-served es envs w v on enough =
      let mid = run lib order hasher es w in
      let (empty, all) =
        checks-deal envs mid (FifoInv-Ready mid (run-FifoInv lib order hasher es w v) on) enough in
      (empty, all ∙ (run-taken lib order hasher es w v).0)

  -- Messages handled one after another, each with what its database calls and clock give.
  abbrev pub deal_all : List (Env × LogicNode) → World → World
  deal_all [] w = w
  deal_all ((env, n) ∷ jobs) w = deal_all jobs (deal lib order hasher env n w)

  -- What a schedule has handled between two states of the worker.
  pub record Handled (w w' : Worker) : Type 0 where
    pub jobs : List (Env × LogicNode)
    pub logged : w'.dealt ≡ w.dealt ++ map (λ j. j.1) jobs
    pub handled : w'.world ≡ deal_all jobs w.world

  nothing-Handled : (w w' : Worker) → w'.dealt ≡ w.dealt → w'.world ≡ w.world → Handled w w'
  nothing-Handled w w' d e = record {
    jobs = [];
    logged = d ∙ sym (append-nil w.dealt);
    handled = e;
  }

  post-Handled : (n : LogicNode) (w : Worker) → Handled w (post n w)
  unfolding post
  post-Handled n w = nothing-Handled w (post n w) (ground arith) (ground arith)

  look-Handled : (env : Env) (w : Worker) → Handled w (look lib order hasher env w)
  unfolding look next_round
  look-Handled env w = elim (List-cases w.msg_que) [
    | inl e ↦
        nothing-Handled w (look lib order hasher env w) (ground (arith, e)) (ground (arith, e))
    | inr (n, q, e) ↦ record {
      jobs = (env, n) ∷ [];
      logged = ground (arith, e);
      handled = ground (arith, e);
    }
  ]

  check-Handled : (env : Env) (w : Worker) → Handled w (check lib order hasher env w)
  unfolding check
  check-Handled env w = elim (Phase-split w.phase) [
    | inl a ↦ subst (λ (v : Worker). Handled w v) (ground (arith, a)) (look-Handled env w)
    | inr rest ↦ nothing-Handled w _ (ground (arith, rest)) (ground (arith, rest))
  ]

  pub step-Handled : (e : Event) (w : Worker) → Handled w (step lib order hasher e w)
  unfolding step stop
  step-Handled (posts n) w = post-Handled n w
  step-Handled (checks env) w = check-Handled env w
  step-Handled sleeps w = nothing-Handled w _ refl refl
  step-Handled wakes w = nothing-Handled w _ refl refl
  step-Handled stops w = nothing-Handled w _ refl refl

  deal_all-append :
      (xs ys : List (Env × LogicNode)) (w : World)
      → deal_all (xs ++ ys) w ≡ deal_all ys (deal_all xs w)
  deal_all-append [] ys w = refl
  deal_all-append ((env, n) ∷ xs) ys w = deal_all-append xs ys (deal lib order hasher env n w)

  pub then-Handled : (u v w : Worker) → Handled u v → Handled v w → Handled u w
  then-Handled u v w a b = record {
    jobs = a.jobs ++ b.jobs;
    logged = ground (
      arith,
      a.logged,
      b.logged,
      map-append (λ (j : Env × LogicNode). j.1) a.jobs b.jobs,
      append_assoc u.dealt (map (λ j. j.1) a.jobs) (map (λ j. j.1) b.jobs),
    );
    handled = ground (arith, a.handled, b.handled, deal_all-append a.jobs b.jobs u.world);
  }

  -- Through any schedule, the worker changes the world exactly as handling the messages that it has
  -- dealt one after another, each once and in their order.
  pub run-Handled : (es : List Event) (w : Worker) → Handled w (run lib order hasher es w)
  unfolding run
  run-Handled [] w = nothing-Handled w w refl refl
  run-Handled (e ∷ es) w =
      let w' = step lib order hasher e w in
      then-Handled w w' (run lib order hasher es w') (step-Handled e w) (run-Handled es w')
