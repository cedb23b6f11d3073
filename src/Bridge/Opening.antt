-- ===== src/Bridge/Opening.antt =====
-- How the opening of the pipe in bridge/pipe_client.py ends, and what the client keeps.
use ghost_grid.Common.{
  ℕ, zero, suc, ◌+◌, ◌≤◌, ◌<◌, ◌≡◌, refl, Bool, true, false, if-cases, Option, none, some, is_some,
  List, [], ◌∷◌, ltb, arith, Bool-cases, inl, inr, subst,
}
use ghost_grid.Bridge.Text.{Text}
use ghost_grid.Bridge.Client.{
  Created, created, not_found, failed, Opened, opened, raised, not_ready, open_loop, after_create,
  open_pipe, PipeClient, Link, new_client, new_client_metrics, connect, count_attempt,
  count_attempt, finish_connect, readline, take_read, write, writeline, take_write, close,
  is_usable,
}

-- Every call before one, from another on, was answered that the pipe is not there.
abbrev pub Missing : (ℕ → Created) → ℕ → ℕ → Type 0
Missing create low high = (j : ℕ) → low ≤ j → j < high → create j ≡ not_found

-- What an outcome of the loop from a number of retries on says of the calls.
abbrev pub IsAnswer : (ℕ → Created) → ℕ → Opened → Type 0
IsAnswer create low (opened h n) =
    (n < 30) × (low ≤ n) × (create n ≡ created h) × Missing create low n
IsAnswer create low (raised n) = (n < 30) × (low ≤ n) × (create n ≡ failed) × Missing create low n
IsAnswer create low not_ready = Missing create low 30

Missing-step :
    (create : ℕ → Created) (low high : ℕ)
    → create low ≡ not_found
    → Missing create (suc low) high
    → Missing create low high
Missing-step create low high e h j below above = elim (Bool-cases (ltb low j)) [
  | inl later ↦ h j (ground (arith, later)) above
  | inr first ↦ subst (λ k. create k ≡ not_found) (ground (arith, first, below)) e
]

earlier :
    (create : ℕ → Created) (low : ℕ) (r : Opened)
    → create low ≡ not_found
    → IsAnswer create (suc low) r
    → IsAnswer create low r
earlier create low (opened h n) e (k, l, c, m) = (k, omega arith, c, Missing-step create low n e m)
earlier create low (raised n) e (k, l, c, m) = (k, omega arith, c, Missing-step create low n e m)
earlier create low not_ready e m = Missing-step create low 30 e m

after_create-IsAnswer :
    (create : ℕ → Created) (retries : ℕ) (c : Created) (rest : Option Opened)
    → create retries ≡ c
    → retries < 30
    → (r : Opened) × (rest ≡ some r) × IsAnswer create (suc retries) r
    → (r : Opened) × (after_create c retries rest ≡ some r) × IsAnswer create retries r
after_create-IsAnswer create retries (created h) rest e k v =
    (opened h retries, refl, (k, omega arith, e, λ j below above. absurd (omega arith)))
after_create-IsAnswer create retries failed rest e k v =
    (raised retries, refl, (k, omega arith, e, λ j below above. absurd (omega arith)))
after_create-IsAnswer create retries not_found rest e k (r, same, v) =
    (r, same, earlier create retries r e v)

open_loop-IsAnswer :
    (fuel : ℕ) (create : ℕ → Created) (retries : ℕ)
    → 30 < fuel + retries
    → retries ≤ 30
    → (r : Opened) × (open_loop fuel create retries ≡ some r) × IsAnswer create retries r
unfolding open_loop
open_loop-IsAnswer zero create retries enough h = absurd (omega arith)
open_loop-IsAnswer (suc fuel) create retries enough h =
    if-cases (λ o. (r : Opened) × (o ≡ some r) × IsAnswer create retries r) (ltb retries 30)
      (λ more.
        let k : retries < 30 = ground (arith, more) in
        after_create-IsAnswer create retries (create retries) _ refl k
          (open_loop-IsAnswer fuel create (suc retries) (omega arith) k))
      (λ last. (not_ready, refl, λ j below above. absurd (ground (arith, last))))

-- Whatever CreateFile answers, the loop of retries ends within its fuel: with the handle, or the
-- exception, of the first call that finds the pipe, which is one of the first thirty, or without a
-- handle where thirty calls do not find it.
pub open_pipe-ends :
    (create : ℕ → Created) → (r : Opened) × (open_pipe create ≡ some r) × IsAnswer create 0 r
unfolding open_pipe
open_pipe-ends create = open_loop-IsAnswer 31 create 0 (omega arith) (omega arith)

-- The calls of a client.
pub data Call : Type 0 where
  connects : ℕ → (ℕ → Created) → Call
  reads : ℕ → Option (List ℕ) → Call
  writes_line : Bool → ℕ → Text → Call
  writes : (ℕ → Created) → Bool → ℕ → Text → Call
  closes : Call

pub record IsClient (p : PipeClient) : Type 0 where
  pub has_handle : p.connected ≡ true → is_some p.handle ≡ true
  pub has_start : p.connected ≡ true → is_some p.connection_start_time ≡ true
  pub attempts :
      p.metrics.connection_attempts ≡ p.metrics.connection_successes + p.metrics.connection_failures

module _ (decode : List ℕ → Text) where
  unfoldable pub make_call : PipeClient → Call → PipeClient
  make_call p (connects now create) = (connect now p create).0
  make_call p (reads now bytes) = (readline decode now p bytes).0
  make_call p (writes_line takes now message) = (writeline takes now (p, []) message).0.0
  make_call p (writes create takes now message) = (write create takes now (p, []) message).0.0
  make_call p closes = close p

  unfoldable pub make_calls : PipeClient → List Call → PipeClient
  make_calls p [] = p
  make_calls p (c ∷ calls) = make_calls (make_call p c) calls

  finish-IsClient :
      (now : ℕ) (p : PipeClient) (o : Option Opened)
      → p.metrics.connection_attempts
        ≡ suc (p.metrics.connection_successes + p.metrics.connection_failures)
      → IsClient (finish_connect now p o).0
  finish-IsClient now p (some (opened h n)) e = record {
    has_handle = λ _. refl;
    has_start = λ _. refl;
    attempts = omega (arith, e);
  }
  finish-IsClient now p (some (raised n)) e = record {
    has_handle = λ h. cc;
    has_start = λ h. cc;
    attempts = omega (arith, e);
  }
  finish-IsClient now p (some not_ready) e = record {
    has_handle = λ h. cc;
    has_start = λ h. cc;
    attempts = omega (arith, e);
  }
  finish-IsClient now p none e = record {
    has_handle = λ h. cc;
    has_start = λ h. cc;
    attempts = omega (arith, e);
  }

  connect-IsClient :
      (now : ℕ) (p : PipeClient) (create : ℕ → Created)
      → IsClient p
      → IsClient (connect now p create).0
  unfolding connect
  connect-IsClient now p create v =
      finish-IsClient now (count_attempt p) (open_pipe create) (omega (arith, v.attempts))

  take_read-IsClient :
      (now : ℕ) (p : PipeClient) (bytes : Option (List ℕ))
      → IsClient p
      → IsClient (take_read decode now p bytes).0
  take_read-IsClient now p none v = record {
    has_handle = λ h. cc;
    has_start = λ h. cc;
    attempts = v.attempts;
  }
  take_read-IsClient now p (some []) v = v
  take_read-IsClient now p (some (b ∷ bytes)) v = record {
    has_handle = v.has_handle;
    has_start = v.has_start;
    attempts = v.attempts;
  }

  take_write-IsClient :
      (takes : Bool) (now : ℕ) (p : PipeClient) (message : Text)
      → IsClient p
      → IsClient (take_write takes now (p, []) message).0.0
  take_write-IsClient true now p message v = record {
    has_handle = v.has_handle;
    has_start = v.has_start;
    attempts = v.attempts;
  }
  take_write-IsClient false now p message v = record {
    has_handle = λ h. cc;
    has_start = λ h. cc;
    attempts = v.attempts;
  }

  writeline-IsClient :
      (takes : Bool) (now : ℕ) (p : PipeClient) (message : Text)
      → IsClient p
      → IsClient (writeline takes now (p, []) message).0.0
  unfolding writeline
  writeline-IsClient takes now p message v =
      if-cases (λ (r : Link × Bool). IsClient r.0.0) (is_usable p)
        (λ _. take_write-IsClient takes now p message v) (λ _. v)

  make_call-IsClient : (p : PipeClient) (c : Call) → IsClient p → IsClient (make_call p c)
  unfolding make_call readline write close
  make_call-IsClient p (connects now create) v = connect-IsClient now p create v
  make_call-IsClient p (reads now bytes) v =
      if-cases (λ (r : PipeClient × Option Text). IsClient r.0) (is_usable p)
        (λ _. take_read-IsClient now p bytes v) (λ _. v)
  make_call-IsClient p (writes_line takes now message) v = writeline-IsClient takes now p message v
  make_call-IsClient p (writes create takes now message) v =
      if-cases (λ (r : Link × Bool). IsClient r.0.0) p.connected
        (λ _. writeline-IsClient takes now p message v)
        (λ _.
          if-cases (λ (r : Link × Bool). IsClient r.0.0) (connect now p create).1
            (λ _. writeline-IsClient takes now _ message (connect-IsClient now p create v))
            (λ _. connect-IsClient now p create v))
  make_call-IsClient p closes v = record {
    has_handle = λ h. cc;
    has_start = λ h. cc;
    attempts = v.attempts;
  }

  make_calls-IsClient :
      (p : PipeClient) (calls : List Call) → IsClient p → IsClient (make_calls p calls)
  unfolding make_calls
  make_calls-IsClient p [] v = v
  make_calls-IsClient p (c ∷ calls) v =
      make_calls-IsClient (make_call p c) calls (make_call-IsClient p c v)

  -- After any calls on a new client, a connected one has a handle and a start time, and each attempt to connect
  -- is counted as a success or as a failure.
  pub new_client-IsClient : (calls : List Call) → IsClient (make_calls new_client calls)
  unfolding new_client new_client_metrics
  new_client-IsClient calls =
      make_calls-IsClient new_client calls
        (record { has_handle = λ h. cc; has_start = λ h. cc; attempts = refl })
