-- ===== src/Db/Handed.antt =====
-- Whom the pool of db/connection.py hands its connections to.
use ghost_grid.Common.{
  ℕ, zero, suc, ◌+◌, ◌≤◌, ◌<◌, ◌≡◌, refl, ap, subst, Bool-cases, inl, inr, if-cases, Option, none,
  some, some-injective, List, [], ◌∷◌, ◌++◌, length, length-append, nat_beq, if◌then◌else◌, arith,
}
use ghost_grid.Db.Connection.{
  ConnectionPool, new_pool, reset_metrics, End, returns, is_full, put_new, init_loop, init_round,
  init, get_oldest, acquire, begin_wait, time_out, release,
}

-- How often a connection occurs.
abbrev pub count : ℕ → List ℕ → ℕ
count c [] = 0
count c (d ∷ ds) = let rest = count c ds in if nat_beq c d then suc rest else rest

-- The pool, and the connections that tasks hold.
abbrev pub World : Type 0
World = ConnectionPool × List ℕ

-- The steps of tasks that release what they hold: a call of `acquire` that finds a connection, at once or
-- after waiting, one that begins to wait or gives up, and a release.
pub data Step : World → World → Type 0 where
  takes :
      (p p' : ConnectionPool) (held : List ℕ) (c : ℕ)
      → acquire p ≡ some (p', c)
      → Step (p, held) (p', c ∷ held)
  begins :
      (p : ConnectionPool) (held : List ℕ) → acquire p ≡ none → Step (p, held) (begin_wait p, held)
  gives_up : (p : ConnectionPool) (held : List ℕ) → Step (p, held) (time_out p, held)
  gives_back :
      (p : ConnectionPool) (before after : List ℕ) (c : ℕ)
      → Step (p, before ++ c ∷ after) ((release c p).0, before ++ after)

pub data Steps : World → World → Type 0 where
  stays : (w : World) → Steps w w
  goes : (w w' w'' : World) → Steps w w' → Step w' w'' → Steps w w''

-- Every connection of the pool is in the queue or held, once.
pub record IsShared (connections : List ℕ) (w : World) : Type 0 where
  pub shared : (c : ℕ) → count c w.0.queue + count c w.1 ≡ count c connections
  pub sizes : length w.0.queue + length w.1 ≡ w.0.pool_size
  pub active : w.0.metrics.transactions_active ≡ length w.1

-- The pool without its oldest connection.
abbrev taken : ConnectionPool → ℕ → List ℕ → ConnectionPool
taken p d queue = record p {
  queue = queue;
  metrics = record (p.metrics) { transactions_active = p.metrics.transactions_active + 1 };
}

count-append : (c : ℕ) (xs ys : List ℕ) → count c (xs ++ ys) ≡ count c xs + count c ys
count-append c [] ys = omega arith
count-append c (x ∷ xs) ys = ground (arith, count-append c xs ys)

taken-IsShared :
    (connections held queue : List ℕ) (p : ConnectionPool) (d : ℕ)
    → p.queue ≡ d ∷ queue
    → IsShared connections (p, held)
    → IsShared connections (taken p d queue, d ∷ held)
taken-IsShared connections held queue p d e v = record {
  shared = λ c. ground (arith, v.shared c, ap (count c) e);
  sizes = omega (arith, v.sizes, ap length e);
  active = omega (arith, v.active);
}

take-IsShared :
    (connections held queue : List ℕ) (p p' : ConnectionPool) (c : ℕ)
    → p.queue ≡ queue
    → get_oldest p queue ≡ some (p', c)
    → IsShared connections (p, held)
    → IsShared connections (p', c ∷ held)
take-IsShared connections held [] p p' c e got v = absurd (cc)
take-IsShared connections held (d ∷ queue) p p' c e got v =
    subst (λ (x : ConnectionPool × ℕ). IsShared connections (x.0, x.1 ∷ held))
      (some-injective _ _ got) (taken-IsShared connections held queue p d e v)

back-IsShared :
    (connections before after : List ℕ) (p : ConnectionPool) (c : ℕ)
    → IsShared connections (p, before ++ c ∷ after)
    → IsShared connections ((release c p).0, before ++ after) × ((release c p).1 ≡ returns)
unfolding release
back-IsShared connections before after p c v = elim (Bool-cases (is_full p)) [
  | inl full ↦ absurd (ground (arith, full, v.sizes, length-append before (c ∷ after)))
  | inr room ↦ rw room (
    record {
      shared = λ d. ground (
        arith,
        v.shared d,
        count-append d before (c ∷ after),
        count-append d before after,
        count-append d p.queue (c ∷ []),
      );
      sizes = omega (
        arith,
        v.sizes,
        length-append before (c ∷ after),
        length-append before after,
        length-append p.queue (c ∷ []),
      );
      active =
          omega (arith, v.active, length-append before (c ∷ after), length-append before after);
    },
    refl,
  )
]

Step-IsShared :
    (connections : List ℕ) (w w' : World)
    → Step w w'
    → IsShared connections w
    → IsShared connections w'
unfolding acquire begin_wait time_out
Step-IsShared connections w w' (takes p p' held c got) v =
    take-IsShared connections held p.queue p p' c refl got v
Step-IsShared connections w w' (begins p held empty) v = record {
  shared = v.shared;
  sizes = v.sizes;
  active = v.active;
}
Step-IsShared connections w w' (gives_up p held) v = record {
  shared = v.shared;
  sizes = v.sizes;
  active = v.active;
}
Step-IsShared connections w w' (gives_back p before after c) v =
    (back-IsShared connections before after p c v).0

Steps-IsShared :
    (connections : List ℕ) (w w' : World)
    → Steps w w'
    → IsShared connections w
    → IsShared connections w'
Steps-IsShared connections w w' (stays _) v = v
Steps-IsShared connections w w'' (goes _ w' _ before last) v =
    Step-IsShared connections w' w'' last (Steps-IsShared connections w w' before v)

get-nonempty :
    (p : ConnectionPool) (queue : List ℕ) (x : ConnectionPool × ℕ)
    → get_oldest p queue ≡ some x
    → 0 < length queue
get-nonempty p [] x got = absurd (cc)
get-nonempty p (c ∷ queue) x got = omega arith

-- A pool whose queue is full, with nothing handed out.
record IsReady (p : ConnectionPool) : Type 0 where
  filled : length p.queue ≡ p.pool_size
  idle : p.metrics.transactions_active ≡ 0

round-IsReady :
    (p p' : ConnectionPool) (o : Option ℕ) (rest : ConnectionPool → ConnectionPool × End)
    → ((c : ℕ) → rest (put_new p c) ≡ (p', returns) → IsReady p')
    → init_round p o rest ≡ (p', returns)
    → IsReady p'
round-IsReady p p' none rest later e = absurd (cc (ap (λ (r : ConnectionPool × End). r.1) e))
round-IsReady p p' (some c) rest later e =
    if-cases (λ (r : ConnectionPool × End). r ≡ (p', returns) → IsReady p') (is_full p)
      (λ _ e'. absurd (cc (ap (λ (r : ConnectionPool × End). r.1) e'))) (λ _. later c) e

init_loop-IsReady :
    (connect : ℕ → Option ℕ) (left n : ℕ) (p p' : ConnectionPool)
    → length p.queue + left ≡ p.pool_size
    → p.metrics.transactions_active ≡ 0
    → init_loop connect left n p ≡ (p', returns)
    → IsReady p'
unfolding init_loop
init_loop-IsReady connect zero n p p' h k e =
    subst IsReady (ap (λ (r : ConnectionPool × End). r.0) e)
      (record { filled = omega (arith, h); idle = k })
init_loop-IsReady connect (suc left) n p p' h k e =
    round-IsReady p p' (connect n) (λ q. init_loop connect left (suc n) q)
      (λ c.
        init_loop-IsReady connect left (suc n) (put_new p c) p'
          (omega (arith, h, length-append p.queue (c ∷ []))) k)
      e

-- Where a new pool is initialised with distinct connections and tasks release only what they hold,
-- each once, the connection that acquire gives is held by nobody, less than the size of the pool are
-- held before it, as many as are counted as active, and releasing a held one does not wait for room.
pub acquire-exclusive :
    (connect : ℕ → Option ℕ) (size : ℕ) (start p p' : ConnectionPool) (held : List ℕ) (c : ℕ)
    → init connect (new_pool size) ≡ (start, returns)
    → ((d : ℕ) → count d start.queue ≤ 1)
    → Steps (start, []) (p, held)
    → acquire p ≡ some (p', c)
    → (count c held ≡ 0)
      × (length held < p.pool_size)
      × (p.metrics.transactions_active ≡ length held)
      × ((before after : List ℕ) (d : ℕ) → held ≡ before ++ d ∷ after → (release d p).1 ≡ returns)
unfolding init new_pool reset_metrics acquire
acquire-exclusive connect size start p p' held c e distinct steps got = (
  ground (arith, next.shared c, distinct c),
  omega (arith, v.sizes, get-nonempty p p.queue (p', c) got),
  v.active,
  λ before after d same.
      (back-IsShared start.queue before after p d
        (subst (λ h. IsShared start.queue (p, h)) same v)).1,
)
  where
    ready : IsReady start
    ready = init_loop-IsReady connect size 0 (new_pool size) start (omega arith) refl e

    v : IsShared start.queue (p, held)
    v =
        Steps-IsShared start.queue (start, []) (p, held) steps
          (record {
            shared = λ d. omega arith;
            sizes = omega (arith, ready.filled);
            active = ready.idle;
          })

    next : IsShared start.queue (p', c ∷ held)
    next = take-IsShared start.queue held p.queue p p' c refl got v
