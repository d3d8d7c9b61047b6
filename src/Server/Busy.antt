-- ===== src/Server/Busy.antt =====
-- An invariant of the program while the acceptor listens: an accept is outstanding or its handler is
-- due.
use coroutine_server.Prelude.{
  ◌<◌, ◌||◌, ℕ, suc, ◌+◌, ◌^◌, ◌%◌, ◌≤◌, ◌≡◌, ◌≢◌, refl, sym, ◌∙◌, Bool, true, false, none, some,
  [], ◌∷◌, ◌++◌, ◌⊎◌, inl, inr, ◌==◌, ==_iff, if◌then◌else◌, length, arith, Bool-cases,
  Option-cases, subst, replicate, length-replicate,
}
use coroutine_server.Pool.{
  Service, new_pool, get_io_service, reset_all, adjust, joined_one, returned_one,
}
use coroutine_server.Server.{
  serving, stopping, Process, runs_at, Asio, start_accept, accepted, new_server, signal, join_next,
  Event, arrives, handles, signals, joins, leaves, step,
}
use coroutine_server.Server.Threads.{
  Unguarded, Unguarded-reset, Unguarded-joined, Unguarded-returned, JoinableFrom, runs_at-some,
  runs_at-reset, runs_at-joined, runs_at-returned, runs_at-replicate, JoinableFrom-reset,
  JoinableFrom-returned, JoinableFrom-joined, JoinableFrom-replicate, join_lem,
}

-- Whether the event is not the return of the acceptor's thread while a handler of an accept waits.
unfoldable pub on_time : Event → Process → Bool
on_time arrives p = true
on_time handles p = true
on_time signals p = true
on_time joins p = true
on_time (leaves i) p =
    if i == p.acceptor then elim p.queued [ none ↦ true | some b ↦ false ] else true

abbrev pub is_signal : Event → Bool
is_signal arrives = false
is_signal handles = false
is_signal signals = true
is_signal joins = false
is_signal (leaves i) = false

-- The threads that are still to be joined, besides.
abbrev pub Joins : Bool → Process → Type 0
Joins g p =
    ((g ≡ false) × (p.phase ≡ serving) × JoinableFrom 0 p.pool.io_service)
    ⊎ ((g ≡ true)
        × (i : ℕ) × (p.phase ≡ stopping i)
        × (i ≤ p.acceptor)
        × Unguarded p.pool.io_service
        × JoinableFrom i p.pool.io_service)

-- The acceptor's thread runs, and an accept is outstanding or its handler is due.
pub record Busy (g : Bool) (p : Process) : Type 0 where
  pub runs : runs_at p.acceptor p.pool.io_service ≡ true
  pub armed : ((b : ℕ) × (p.accepting ≡ some b)) ⊎ ((b : ℕ) × (p.queued ≡ some b))
  pub unjoined : Joins g p

-- `StartAccept` always succeeds on a pool with services.
start_accept-Busy :
    (g : Bool) (p : Process)
    → runs_at p.acceptor p.pool.io_service ≡ true
    → Joins g p
    → (q : Process) × (start_accept p ≡ some q) × Busy g q
unfolding start_accept get_io_service
start_accept-Busy g p r j =
    let size = length p.pool.io_service in
    let next = p.pool.next_io_service in
    (
      record p {
        pool = record p.pool { next_io_service = (next + 1) % 2 ^ 64 };
        accepting = some (next % size);
        sessions = p.sessions ++ next % size ∷ [];
      },
      ground (arith, runs_at-some p.acceptor p.pool.io_service r),
      record { runs = r; armed = inl (next % size, refl); unjoined = j },
    )

pub new_server-Busy :
    (size : ℕ)
    → 1 ≤ size
    → (p : Process) × (new_server true (new_pool size) ≡ some p) × Busy false p
unfolding new_server new_pool get_io_service
new_server-Busy size h =
    let s : Service = record { guarded = true; returned = false; joinable = true } in
    let n = length-replicate size s in
    let first : Process = record {
      pool = record { io_service = replicate size s; next_io_service = 1 };
      acceptor = 0;
      accepting = none;
      queued = none;
      sessions = [];
      phase = serving;
    } in
    let (p, e, b) =
      start_accept-Busy false first (runs_at-replicate 0 size s refl h)
        (inl (refl, refl, JoinableFrom-replicate size s refl)) in
    (p, ground (arith, n, e), b)

signal-Busy : (g : Bool) (p : Process) → Busy g p → Busy true (signal p)
unfolding signal
signal-Busy g p b = elim b.unjoined [
  | inl (never, e, j) ↦
      let q : Process = record p { pool = reset_all p.pool; phase = stopping 0 } in
      let changed : signal p ≡ q = ground (arith, e) in
      subst (Busy true) (sym changed) (record {
        runs = runs_at-reset p.acceptor p.pool.io_service ∙ b.runs;
        armed = b.armed;
        unjoined = inr (
          refl,
          0,
          refl,
          omega arith,
          Unguarded-reset p.pool.io_service,
          JoinableFrom-reset 0 p.pool.io_service j,
        );
      })
  | inr (came, i, e, l, u, j) ↦
      let same : signal p ≡ p = ground (arith, e) in
      subst (Busy true) (sym same)
        (record { runs = b.runs; armed = b.armed; unjoined = inr (refl, i, e, l, u, j) })
]

-- One more turn of `Stop`.
pub join_next_lem :
    (g : Bool) (p : Process) (i : ℕ)
    → Busy g p
    → (p.phase ≡ stopping i)
    → i ≤ p.acceptor
    → JoinableFrom i p.pool.io_service
    → ((join_next p ≡ p) × (runs_at i p.pool.io_service ≡ true))
      ⊎ ((join_next p ≡ record p {
        pool = record p.pool { io_service = adjust joined_one i p.pool.io_service };
        phase = stopping (suc i);
      })
          × (runs_at i p.pool.io_service ≡ false)
          × (i < p.acceptor))
unfolding join_next
join_next_lem g p i b e l j = elim (join_lem i p.acceptor p.pool l b.runs j) [
  | inl (w, r) ↦ inl (ground (arith, e, w), r)
  | inr (w, r, less) ↦ inr (ground (arith, e, w), r, less)
]

join_next-Busy : (g : Bool) (p : Process) → Busy g p → Busy g (join_next p)
unfolding join_next
join_next-Busy g p b = elim b.unjoined [
  | inl (never, e, j) ↦
      let same : join_next p ≡ p = ground (arith, e) in subst (Busy g) (sym same) b
  | inr (came, i, e, l, u, j) ↦ elim (join_next_lem g p i b e l j) [
    | inl (same, r) ↦ subst (Busy g) (sym same) b
    | inr (changed, r, less) ↦ subst (Busy g) (sym changed) (record {
      runs = runs_at-joined p.acceptor i p.pool.io_service ∙ b.runs;
      armed = b.armed;
      unjoined = inr (
        came,
        suc i,
        refl,
        omega arith,
        Unguarded-joined i p.pool.io_service u,
        JoinableFrom-joined i p.pool.io_service j,
      );
    })
  ]
]

-- The return of another thread.
returned-Busy :
    (g : Bool) (i : ℕ) (p : Process)
    → p.acceptor ≢ i
    → Busy g p
    → Busy g
        (record p { pool = record p.pool { io_service = adjust returned_one i p.pool.io_service } })
returned-Busy g i p d b = record {
  runs = runs_at-returned p.acceptor i p.pool.io_service d ∙ b.runs;
  armed = b.armed;
  unjoined = elim b.unjoined [
    | inl (n, e, j) ↦ inl (n, e, JoinableFrom-returned 0 i p.pool.io_service j)
    | inr (c, k, e, l, u, j) ↦ inr (
      c,
      k,
      e,
      l,
      Unguarded-returned i p.pool.io_service u,
      JoinableFrom-returned k i p.pool.io_service j,
    )
  ];
}

-- The acceptor's thread does not return on time.
acceptor-stays :
    (asio : Asio) (g : Bool) (i : ℕ) (p : Process)
    → on_time (leaves i) p ≡ true
    → Busy g p
    → asio.run_returns p i ≡ true
    → p.acceptor ≢ i
unfolding on_time
acceptor-stays asio g i p t b r same = elim b.armed [
  | inl (s, e) ↦ ground (arith, asio.accept_keeps p s e, r, same)
  | inr (s, e) ↦ ground (arith, t, e, same, ==_iff i p.acceptor)
]

pub step-Busy :
    (asio : Asio) (e : Event) (g : Bool) (p : Process)
    → on_time e p ≡ true
    → Busy g p
    → (q : Process) × (step asio e p ≡ some q) × Busy (is_signal e || g) q
unfolding step accepted
step-Busy asio arrives g p t b = elim (Option-cases p.accepting) [
  | inl e ↦ (p, ground (arith, e), b)
  | inr (s, e) ↦ (
    record p { accepting = none; queued = some s },
    ground (arith, e, b.runs),
    record { runs = b.runs; armed = inr (s, refl); unjoined = b.unjoined },
  )
]
step-Busy asio handles g p t b = elim (Option-cases p.queued) [
  | inl e ↦ (p, ground (arith, e), b)
  | inr (s, e) ↦ elim (Bool-cases (runs_at s p.pool.io_service)) [
    | inl r ↦
        let (q, again, busy) = start_accept-Busy g (record p { queued = none }) b.runs b.unjoined in
        (q, ground (arith, e, r, again), busy)
    | inr r ↦ (p, ground (arith, e, r), b)
  ]
]
step-Busy asio signals g p t b = (signal p, refl, signal-Busy g p b)
step-Busy asio joins g p t b = (join_next p, refl, join_next-Busy g p b)
step-Busy asio (leaves i) g p t b = elim (Bool-cases (asio.run_returns p i)) [
  | inl r ↦ (
    record p { pool = record p.pool { io_service = adjust returned_one i p.pool.io_service } },
    ground (arith, r),
    returned-Busy g i p (acceptor-stays asio g i p t b r) b,
  )
  | inr r ↦ (p, ground (arith, r), b)
]
