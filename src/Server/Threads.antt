-- ===== src/Server/Threads.antt =====
-- The threads of the pool while `Stop` joins them.
use coroutine_server.Prelude.{
  not, ℕ, zero, suc, ◌≤◌, ◌<◌, ◌≡◌, ◌≢◌, refl, true, false, some, List, [], ◌∷◌, ◌⊎◌, inl, inr, map,
  length, arith, Bool-cases, replicate,
}
use coroutine_server.Pool.{
  Service, Pool, reset, service_at, adjust, joined_one, returned_one, waits, joined, join,
}
use coroutine_server.Server.{runs_at}

-- The threads from `i` on have not been joined.
abbrev pub JoinableFrom : ℕ → List Service → Type 0
JoinableFrom i [] = Unit
JoinableFrom zero (s ∷ ss) = (s.joinable ≡ true) × JoinableFrom zero ss
JoinableFrom (suc i) (s ∷ ss) = JoinableFrom i ss

pub runs_at-some : (i : ℕ) (ss : List Service) → runs_at i ss ≡ true → 1 ≤ length ss
runs_at-some i [] r = ground arith
runs_at-some i (s ∷ ss) r = omega arith

pub runs_at-reset : (i : ℕ) (ss : List Service) → runs_at i (map reset ss) ≡ runs_at i ss
runs_at-reset i [] = refl
runs_at-reset zero (s ∷ ss) = refl
runs_at-reset (suc i) (s ∷ ss) = runs_at-reset i ss

pub runs_at-joined :
    (i j : ℕ) (ss : List Service) → runs_at i (adjust joined_one j ss) ≡ runs_at i ss
runs_at-joined i j [] = refl
runs_at-joined zero zero (s ∷ ss) = refl
runs_at-joined zero (suc j) (s ∷ ss) = refl
runs_at-joined (suc i) zero (s ∷ ss) = refl
runs_at-joined (suc i) (suc j) (s ∷ ss) = runs_at-joined i j ss

pub runs_at-returned :
    (i j : ℕ) (ss : List Service) → i ≢ j → runs_at i (adjust returned_one j ss) ≡ runs_at i ss
runs_at-returned i j [] d = refl
runs_at-returned zero zero (s ∷ ss) d = absurd (d refl)
runs_at-returned zero (suc j) (s ∷ ss) d = refl
runs_at-returned (suc i) zero (s ∷ ss) d = refl
runs_at-returned (suc i) (suc j) (s ∷ ss) d = runs_at-returned i j ss (λ e. d (omega (arith, e)))

pub runs_at-replicate :
    (i n : ℕ) (s : Service) → s.returned ≡ false → i < n → runs_at i (replicate n s) ≡ true
runs_at-replicate i zero s e h = absurd (omega arith)
runs_at-replicate zero (suc n) s e h = rw e refl
runs_at-replicate (suc i) (suc n) s e h = runs_at-replicate i n s e (omega arith)

pub JoinableFrom-reset :
    (i : ℕ) (ss : List Service) → JoinableFrom i ss → JoinableFrom i (map reset ss)
JoinableFrom-reset i [] h = tt
JoinableFrom-reset zero (s ∷ ss) h = (h.0, JoinableFrom-reset zero ss h.1)
JoinableFrom-reset (suc i) (s ∷ ss) h = JoinableFrom-reset i ss h

pub JoinableFrom-returned :
    (i j : ℕ) (ss : List Service) → JoinableFrom i ss → JoinableFrom i (adjust returned_one j ss)
JoinableFrom-returned i j [] h = tt
JoinableFrom-returned zero zero (s ∷ ss) h = h
JoinableFrom-returned zero (suc j) (s ∷ ss) h = (h.0, JoinableFrom-returned zero j ss h.1)
JoinableFrom-returned (suc i) zero (s ∷ ss) h = h
JoinableFrom-returned (suc i) (suc j) (s ∷ ss) h = JoinableFrom-returned i j ss h

pub JoinableFrom-joined :
    (i : ℕ) (ss : List Service) → JoinableFrom i ss → JoinableFrom (suc i) (adjust joined_one i ss)
JoinableFrom-joined i [] h = tt
JoinableFrom-joined zero (s ∷ ss) h = h.1
JoinableFrom-joined (suc i) (s ∷ ss) h = JoinableFrom-joined i ss h

pub JoinableFrom-replicate :
    (n : ℕ) (s : Service) → s.joinable ≡ true → JoinableFrom zero (replicate n s)
JoinableFrom-replicate zero s e = tt
JoinableFrom-replicate (suc n) s e = (e, JoinableFrom-replicate n s e)

-- No guard is held.
abbrev pub Unguarded : List Service → Type 0
Unguarded [] = Unit
Unguarded (s ∷ ss) = (s.guarded ≡ false) × Unguarded ss

pub Unguarded-reset : (ss : List Service) → Unguarded (map reset ss)
Unguarded-reset [] = tt
Unguarded-reset (s ∷ ss) = (refl, Unguarded-reset ss)

pub Unguarded-joined :
    (i : ℕ) (ss : List Service) → Unguarded ss → Unguarded (adjust joined_one i ss)
Unguarded-joined i [] h = tt
Unguarded-joined zero (s ∷ ss) h = h
Unguarded-joined (suc i) (s ∷ ss) h = (h.0, Unguarded-joined i ss h.1)

pub Unguarded-returned :
    (i : ℕ) (ss : List Service) → Unguarded ss → Unguarded (adjust returned_one i ss)
Unguarded-returned i [] h = tt
Unguarded-returned zero (s ∷ ss) h = h
Unguarded-returned (suc i) (s ∷ ss) h = (h.0, Unguarded-returned i ss h.1)

-- A thread up to one that runs and not yet joined is joinable, and another one if it has returned.
service_at-joinable :
    (i a : ℕ) (ss : List Service)
    → i ≤ a
    → runs_at a ss ≡ true
    → JoinableFrom i ss
    → (s : Service) × (service_at i ss ≡ some s)
      × (s.joinable ≡ true)
      × (runs_at i ss ≡ not s.returned)
      × ((s.returned ≡ false) ⊎ ((s.returned ≡ true) × (i < a)))
service_at-joinable i a [] h r j = ground arith
service_at-joinable zero zero (s ∷ ss) h r j = (s, refl, j.0, refl, inl (ground arith))
service_at-joinable (suc i) zero (s ∷ ss) h r j = absurd (omega arith)
service_at-joinable zero (suc a) (s ∷ ss) h r j = (
  s,
  refl,
  j.0,
  refl,
  elim (Bool-cases s.returned) [ inl e ↦ inr (e, omega arith) | inr e ↦ inl e ],
)
service_at-joinable (suc i) (suc a) (s ∷ ss) h r j =
    let (t, e, k, n, o) = service_at-joinable i a ss (omega arith) r j in
    (t, e, k, n, elim o [ inl x ↦ inl x | inr (x, l) ↦ inr (x, omega arith) ])

-- `join` up to a thread that runs waits for a thread that runs, or gets past another one.
pub join_lem :
    (i a : ℕ) (p : Pool)
    → i ≤ a
    → runs_at a p.io_service ≡ true
    → JoinableFrom i p.io_service
    → ((join i p ≡ waits) × (runs_at i p.io_service ≡ true))
      ⊎ ((join i p ≡ joined (record p { io_service = adjust joined_one i p.io_service }))
          × (runs_at i p.io_service ≡ false)
          × (i < a))
unfolding join
join_lem i a p h r j =
    let (s, e, k, n, o) = service_at-joinable i a p.io_service h r j in
    elim o [
      | inl x ↦ inl (ground (arith, e, k, x), ground (arith, n, x))
      | inr (x, l) ↦ inr (ground (arith, e, k, x), ground (arith, n, x), l)
    ]
