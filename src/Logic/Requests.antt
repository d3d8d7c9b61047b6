-- ===== src/Logic/Requests.antt =====
-- Requests from the bytes of their clients to their handlers: the read loops of the sessions
-- (CoroutineServer/CSession.cpp), the queue and the worker thread (CoroutineServer/LogicSystem.cpp).
mod Tests
use coroutine_server.Prelude.{
  ℕ, suc, ◌≤◌, ◌<◌, ◌≡◌, ◌≢◌, inl, inr, refl, sym, ap, ◌∙◌, Bool, true, false, none, some, List, [],
  ◌∷◌, ◌++◌, Bytes, arith, length, map, List-cases, ◌==◌, ==_iff, if◌then◌else◌, take-append,
  Bool-cases, Option-cases,
}
use coroutine_server.Wire.{RecvNode}
use coroutine_server.Wire.Endian.{ByteOrder}
use coroutine_server.Reader.{read_loop}
use coroutine_server.Reader.Transport.{Input}
use coroutine_server.Reader.Rounds.{accepted_node}
use coroutine_server.Reader.Stream.{Message, stream, AllAccepted, nodes, read_loop-stream}
use coroutine_server.World.{World}
use coroutine_server.Logic.Json.{JsonLib}
use coroutine_server.Logic.Replies.{Env}
use coroutine_server.Logic.Dispatch.{LogicNode, msg_data, callback, deal}
use coroutine_server.Logic.Worker.{ended, Worker, Event, checks, run}
use coroutine_server.Logic.Worker.Fifo.{FifoInv, taken, accepted}
use coroutine_server.Logic.Worker.Served.{deal_all, Handled, run-served, then-Handled, run-Handled}

-- A request: the session of its client and the message.
abbrev pub Request : Type 0
Request = ℕ × Message

abbrev pub posted_node : Request → LogicNode
posted_node (sid, m) = record { session = sid; recvnode = accepted_node m.id m.body }

-- The nodes of a session, and the requests of a session, in their order.
unfoldable pub of_session : ℕ → List LogicNode → List RecvNode
of_session sid [] = []
of_session sid (n ∷ ns) =
    let rest = of_session sid ns in if n.session == sid then n.recvnode ∷ rest else rest

unfoldable pub requests_of : ℕ → List Request → List Message
requests_of sid [] = []
requests_of sid ((s, m) ∷ rs) = let rest = requests_of sid rs in if s == sid then m ∷ rest else rest

-- What a session has still to be taken from it, after its first message has been.
abbrev without : ℕ → List Message → (ℕ → List Message) → ℕ → List Message
without s ms streams sid = if s == sid then ms else streams sid

-- Nodes which are, for each session, those of its messages, are the nodes of requests.
as_requests :
    (ns : List LogicNode) (streams : ℕ → List Message)
    → ((sid : ℕ) → of_session sid ns ≡ nodes (streams sid))
    → (rs : List Request) × (ns ≡ map posted_node rs)
      × ((sid : ℕ) → requests_of sid rs ≡ streams sid)
unfolding of_session requests_of
as_requests [] streams h = (
  [],
  refl,
  λ sid. elim (List-cases (streams sid)) [
    | inl e ↦ sym e
    | inr (m, ms, e) ↦ absurd (ground (arith, e, h sid))
  ],
)
as_requests (n ∷ ns) streams h = elim (List-cases (streams n.session)) [
  | inl e ↦ absurd (ground (arith, e, h n.session, ==_iff n.session n.session))
  | inr (m, ms, e) ↦
      let (rs, same, each) = as_requests ns (without n.session ms streams) λ sid.
        ground (arith, e, h sid, h n.session, ==_iff n.session sid, ==_iff n.session n.session) in
      (
        (n.session, m) ∷ rs,
        ground (arith, e, h n.session, ==_iff n.session n.session, same),
        λ sid. ground (arith, e, each sid, ==_iff n.session sid),
      )
]

module _ {Json : Type 0} (lib : JsonLib Json) (order : ByteOrder) (hasher : Bytes → ℕ) where
  -- The handler of a request's id on its session and body, and the handlers of many in turn.
  unfoldable pub handle : Env → Request → World → World
  handle env (sid, m) w = elim (callback lib order hasher env m.id) [
    | none ↦ w
    | some handler ↦ (handler sid m.body w).1
  ]

  unfoldable pub handle_all : List Env → List Request → World → World
  handle_all (env ∷ envs) (r ∷ rs) w = handle_all envs rs (handle env r w)
  handle_all _ _ w = w

  -- The string that the worker makes of a node is the body that the client sent.
  deal-handle :
      (env : Env) (r : Request) (w : World)
      → deal lib order hasher env (posted_node r) w ≡ handle env r w
  unfolding deal handle
  deal-handle env (sid, m) w =
      ap
        (λ (b : Bytes).
          let w' : World = elim (callback lib order hasher env m.id) [
            | none ↦ w
            | some handler ↦ (handler sid b w).1
          ] in
          w')
        (take-append m.body (0 ∷ []))

  deal_all-handle_all :
      (jobs : List (Env × LogicNode)) (rs : List Request) (w : World)
      → map (λ j. j.1) jobs ≡ map posted_node rs
      → (envs : List Env) × (length envs ≡ length rs)
        × (deal_all lib order hasher jobs w ≡ handle_all envs rs w)
  unfolding handle_all
  deal_all-handle_all [] [] w e = ([], refl, refl)
  deal_all-handle_all [] (r ∷ rs) w e = absurd (ground (arith, e))
  deal_all-handle_all (j ∷ jobs) [] w e = absurd (ground (arith, e))
  deal_all-handle_all ((env, n) ∷ jobs) (r ∷ rs) w e =
      let first : n ≡ posted_node r = ground (arith, e) in
      let (envs, same, all) =
        deal_all-handle_all jobs rs (deal lib order hasher env n w) (ground (arith, e)) in
      (
        env ∷ envs,
        ap suc same,
        all
            ∙ ap (λ (v : World). handle_all envs rs v)
                (ap (λ (x : LogicNode). deal lib order hasher env x w) first ∙ deal-handle env r w),
      )

  module _ (input : Input) (stops : ℕ → Bool) where
    -- While no session is stopped, whatever messages the clients of the sessions have sent, well
    -- formed, and from a worker with nothing dealt or queued: after a schedule that has not ended
    -- the worker and in which the queue has taken, of each session, just what its read loop posts,
    -- and after as many looks as messages then wait, the world is the one that the handlers make of
    -- all the messages' ids and bodies, run one after another, each once, in an order that has the
    -- messages of each client in the order in which it sent them.
    pub run-handle_all :
        (streams : ℕ → List Message) (fuel : ℕ) (es : List Event) (looks : List Env) (w : Worker)
        → ((k : ℕ) → stops k ≡ false)
        → ((sid : ℕ) → AllAccepted (streams sid))
        → ((sid : ℕ) → length (streams sid) < fuel)
        → FifoInv w
        → w.dealt ≡ []
        → w.msg_que ≡ []
        → ((sid : ℕ)
            → of_session sid (accepted lib order hasher es w)
              ≡ (read_loop order input stops fuel 0 (stream (streams sid))).0)
        → (run lib order hasher es w).phase ≢ ended
        → length (run lib order hasher es w).msg_que ≤ length looks
        → let w' = run lib order hasher (map checks looks) (run lib order hasher es w) in
          (rs : List Request) × (envs : List Env) × ((sid : ℕ) → requests_of sid rs ≡ streams sid)
          × (length envs ≡ length rs)
          × (w'.world ≡ handle_all envs rs w.world)
    run-handle_all streams fuel es looks w open_ ok short v new empty read on enough =
        let mid = run lib order hasher es w in
        let (rs, same, each) = as_requests (accepted lib order hasher es w) streams λ sid.
          read sid
          ∙ ap (λ r. r.0)
              (read_loop-stream order input stops open_ (streams sid) fuel 0 (ok sid)
                (short sid)) in
        let total =
          then-Handled lib order hasher w mid (run lib order hasher (map checks looks) mid)
            (run-Handled lib order hasher es w)
            (run-Handled lib order hasher (map checks looks) mid) in
        let (_, all) = run-served lib order hasher es looks w v on enough in
        let (envs, count, handled) =
          deal_all-handle_all total.jobs rs w.world
            (ground (arith, all, total.logged, new, empty, same)) in
        (rs, envs, each, count, total.handled ∙ handled)
