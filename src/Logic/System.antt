-- ===== src/Logic/System.antt =====
-- The worker thread together with the input and output of the sessions, step by step: the whole server
-- with its queue and its condition variable, as a refinement of the server of Logic/Server.
pub mod Whole
mod Tests
use coroutine_server.Prelude.{
  ℕ, ◌≡◌, ◌≢◌, ◌⊎◌, refl, ap, sym, subst, Bool, false, List, [], ◌∷◌, ◌++◌, Bytes, pos, ◌<ℤ◌,
  List-cases, inl, inr, arith, length, if◌then◌else◌,
}
use coroutine_server.Wire.Endian.{ByteOrder}
use coroutine_server.World.{World, handle_accept, end_session, write_done, destroy}
use coroutine_server.Logic.Json.{JsonLib}
use coroutine_server.Logic.Replies.{Env}
use coroutine_server.Logic.Dispatch.{LogicNode, deal, next_round}
use coroutine_server.Logic.Server
use coroutine_server.Logic.Server.{start, Move, deals, Reaches, done, reached-exclusive}
use coroutine_server.Logic.Worker.{
  Phase, awake, checked, asleep, ended, Worker, Event, posts, checks, sleeps, wakes, stops, post,
  look, check, stop, step,
}

-- `LogicSystem::LogicSystem`, on the server before its first connection.
abbrev pub new_worker : (ℕ → Bytes) → Worker
new_worker uuids = record {
  msg_que = [];
  b_stop = false;
  phase = awake;
  dealt = [];
  world = start uuids;
}

abbrev pub with_world : Worker → World → Worker
with_world v w = record v { world = w }

Phase-cases : (p : Phase) → (p ≡ awake) ⊎ (p ≢ awake)
Phase-cases awake = inl refl
Phase-cases checked = inr λ e. cc
Phase-cases asleep = inr λ e. cc
Phase-cases ended = inr λ e. cc

module _ {Json : Type 0} (lib : JsonLib Json) (order : ByteOrder) (hasher : Bytes → ℕ) where
  -- Steps of the worker, posts of sessions, and what the input and output of sessions do to the world.
  pub data Runs : Worker → Worker → Type 0 where
    rests : {u : Worker} → Runs u u
    works : {u v : Worker} → Runs u v → (e : Event) → Runs u (step lib order hasher e v)
    accepts :
        {u v : Worker}
        → Runs u v
        → (sid : ℕ) (failed : Bool) → Runs u (with_world v (handle_accept sid failed v.world))
    ends : {u v : Worker} → Runs u v → (sid : ℕ) → Runs u (with_world v (end_session sid v.world))
    writes :
        {u v : Worker}
        → Runs u v
        → (sid : ℕ) (failed : Bool) → Runs u (with_world v (write_done sid failed v.world))
    destroys : {u v : Worker} → Runs u v → (sid : ℕ) → Runs u (with_world v (destroy sid v.world))

  post-world : (n : LogicNode) (v : Worker) → (post n v).world ≡ v.world
  unfolding post
  post-world n v = ground arith

  -- A look handles one message or leaves the world alone.
  check-world :
      (env : Env) (v : Worker)
      → ((check lib order hasher env v).world ≡ v.world)
        ⊎ ((n : LogicNode) × ((check lib order hasher env v).world
              ≡ deal lib order hasher env n v.world))
  unfolding check look next_round
  check-world env v = elim (List-cases v.msg_que) [
    | inl e ↦ inl (ground (arith, e))
    | inr (n, q, e) ↦ elim (Phase-cases v.phase) [
      | inl up ↦ inr (n, ground (arith, e, up))
      | inr down ↦ inl (ground (arith, e, down))
    ]
  ]

  to_world :
      {u w w' : World} → w' ≡ w → Reaches lib order hasher u w → Reaches lib order hasher u w'
  to_world {u = u} e r = subst (λ (x : World). Reaches lib order hasher u x) (sym e) r

  step-Reaches :
      (e : Event) {u : World} (v : Worker)
      → Reaches lib order hasher u v.world
      → Reaches lib order hasher u (step lib order hasher e v).world
  unfolding step stop
  step-Reaches (posts n) v r = to_world (post-world n v) r
  step-Reaches (checks env) v r = elim (check-world env v) [
    | inl same ↦ to_world same r
    | inr (n, dealt) ↦ to_world dealt (Server.step r (Server.deals env n))
  ]
  step-Reaches sleeps v r = r
  step-Reaches wakes v r = r
  step-Reaches stops v r = r

  -- However the steps of the worker thread, the posts to its queue and the moves of the sessions
  -- interleave, the world goes only through states that the server reaches by whole moves, a handler
  -- being one of them.
  pub Runs-Reaches : {u v : Worker} → Runs u v → Reaches lib order hasher u.world v.world
  Runs-Reaches rests = done
  Runs-Reaches (works {v = v} r e) = step-Reaches e v (Runs-Reaches r)
  Runs-Reaches (accepts r sid failed) = Server.step (Runs-Reaches r) (Server.accepts sid failed)
  Runs-Reaches (ends r sid) = Server.step (Runs-Reaches r) (Server.ends sid)
  Runs-Reaches (writes r sid failed) = Server.step (Runs-Reaches r) (Server.writes sid failed)
  Runs-Reaches (destroys r sid) = Server.step (Runs-Reaches r) (Server.destroys sid)

  -- So with its worker thread the server, too, has at most one open session for a user.
  pub Runs-exclusive :
      (uuids : ℕ → Bytes) (v : Worker) (s t : ℕ)
      → Runs (new_worker uuids) v
      → (v.world.sessions s).b_stop ≡ false
      → (v.world.sessions t).b_stop ≡ false
      → pos 0 <ℤ (v.world.sessions s).login_uid
      → (v.world.sessions s).login_uid ≡ (v.world.sessions t).login_uid
      → s ≡ t
  Runs-exclusive uuids v s t r =
      reached-exclusive lib order hasher uuids v.world s t (Runs-Reaches r)
