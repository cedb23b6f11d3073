-- ===== src/Execution/Attempts.antt =====
-- execution/retry.py over sequences of calls: one retry for each order, and what the counters count.
use text.Mathlib.TextEquality.{eq_iff}
use ghost_grid.Common.{
  ℕ, ◌+◌, ◌≤◌, ◌≡◌, ◌≢◌, ◌∙◌, refl, String, true, false, Option, none, some, List, [], ◌∷◌, All,
  arith, if◌then◌else◌, string_eq, lookup, lookup-insert, lookup-erase, lookup-insert_self,
  lookup-erase_self, length,
}
use ghost_grid.Execution.Retry.{
  OrderStatus, RetryMetrics, RetryOrchestrator, new_orchestrator, tracker, should_retry,
  mark_success, mark_failed,
}

pub data Call : Type 0 where
  ask : String → Option OrderStatus → Option String → Call
  succeeded gave_up : String → Call

abbrev pub subject : Call → String
subject (ask id _ _) = id
subject (succeeded id) = id
subject (gave_up id) = id

unfoldable pub call : RetryOrchestrator → Call → RetryOrchestrator
call r (ask id status error) = (should_retry r id status error).0
call r (succeeded id) = mark_success r id
call r (gave_up id) = mark_failed r id

unfoldable pub calls : RetryOrchestrator → List Call → RetryOrchestrator
calls r [] = r
calls r (c ∷ cs) = calls (call r c) cs

-- No tracker allows more than one further attempt.
abbrev pub IsTracked : RetryOrchestrator → Type 0
IsTracked r = (id : String) → (tracker r id).max_attempts ≤ (tracker r id).attempt + 1

-- A call leaves the tracker of every other order alone.
call-other :
    (r : RetryOrchestrator) (c : Call) (id : String)
    → subject c ≢ id
    → lookup id (call r c).retries ≡ lookup id r.retries
unfolding call should_retry mark_success mark_failed
call-other r (ask j status error) id ne = ground (
  arith,
  lookup-insert id j
      (record (tracker r j) { attempt = (tracker r j).attempt + 1; last_error = error }) r.retries,
  lookup-erase id j r.retries,
  eq_iff j id,
)
call-other r (succeeded j) id ne = ground (arith, lookup-erase id j r.retries, eq_iff j id)
call-other r (gave_up j) id ne = ground (arith, lookup-erase id j r.retries, eq_iff j id)

calls-other :
    (cs : List Call) (r : RetryOrchestrator) (id : String)
    → All (λ c. subject c ≢ id) cs
    → lookup id (calls r cs).retries ≡ lookup id r.retries
unfolding calls
calls-other [] r id h = refl
calls-other (c ∷ cs) r id h = calls-other cs (call r c) id h.1 ∙ call-other r c id h.0

-- The tracker of the order of a call.
call_self :
    (r : RetryOrchestrator) (id : String) (status : Option OrderStatus) (error : Option String)
    → lookup id (should_retry r id status error).0.retries ≡ (
        if (should_retry r id status error).1
        then some
            (record (tracker r id) { attempt = (tracker r id).attempt + 1; last_error = error })
        else none)
unfolding should_retry
call_self r id status error = ground (
  arith,
  lookup-insert_self id
      (record (tracker r id) { attempt = (tracker r id).attempt + 1; last_error = error })
      r.retries,
  lookup-erase_self id r.retries,
)

spent_tracker :
    (r : RetryOrchestrator) (id : String) (status : Option OrderStatus) (error : Option String)
    → (tracker r id).max_attempts ≤ (tracker r id).attempt
    → (should_retry r id status error).1 ≡ false
unfolding should_retry
spent_tracker r id status error h = ground arith

one_retry :
    (r : RetryOrchestrator) (id : String) (status status' : Option OrderStatus)
    (error error' : Option String) (cs : List Call)
    → IsTracked r
    → (should_retry r id status error).1 ≡ true
    → All (λ c. subject c ≢ id) cs
    → (should_retry (calls (should_retry r id status error).0 cs) id status' error').1 ≡ false
one_retry r id status status' error error' cs v again others =
    spent_tracker (calls (should_retry r id status error).0 cs) id status' error' (
      ground (
        arith,
        v id,
        calls-other cs (should_retry r id status error).0 id others,
        call_self r id status error,
      ))

call-IsTracked : (r : RetryOrchestrator) (c : Call) → IsTracked r → IsTracked (call r c)
unfolding call should_retry mark_success mark_failed
call-IsTracked r (ask j status error) v id = ground (
  arith,
  lookup-insert id j
      (record (tracker r j) { attempt = (tracker r j).attempt + 1; last_error = error }) r.retries,
  lookup-erase id j r.retries,
  v id,
  v j,
)
call-IsTracked r (succeeded j) v id = ground (arith, lookup-erase id j r.retries, v id)
call-IsTracked r (gave_up j) v id = ground (arith, lookup-erase id j r.retries, v id)

calls-IsTracked : (cs : List Call) (r : RetryOrchestrator) → IsTracked r → IsTracked (calls r cs)
unfolding calls
calls-IsTracked [] r v = v
calls-IsTracked (c ∷ cs) r v = calls-IsTracked cs (call r c) (call-IsTracked r c v)

new-IsTracked : IsTracked new_orchestrator
unfolding new_orchestrator lookup
new-IsTracked id = omega arith

-- After any calls on a new orchestrator, an order that should_retry sends again is refused the next
-- time it is asked about, whatever was called in between for other orders.
pub retried_once :
    (before between : List Call) (id : String) (status status' : Option OrderStatus)
    (error error' : Option String)
    → (should_retry (calls new_orchestrator before) id status error).1 ≡ true
    → All (λ c. subject c ≢ id) between
    → (should_retry
        (calls (should_retry (calls new_orchestrator before) id status error).0 between)
        id
        status'
        error').1
      ≡ false
retried_once before between id status status' error error' again others =
    one_retry (calls new_orchestrator before) id status status' error error' between
      (calls-IsTracked before new_orchestrator new-IsTracked) again others

-- Every call of a sequence is counted once.
abbrev pub total : RetryMetrics → ℕ
total m =
    m.retries_attempted + m.retries_succeeded + m.retries_failed + m.abort_by_rejection
    + m.abort_by_error

call-total : (r : RetryOrchestrator) (c : Call) → total (call r c).metrics ≡ total r.metrics + 1
unfolding call should_retry mark_success mark_failed
call-total r (ask id status error) = ground arith
call-total r (succeeded id) = omega arith
call-total r (gave_up id) = omega arith

-- Each call of the orchestrator is counted in one counter, once.
pub calls-total :
    (cs : List Call) (r : RetryOrchestrator)
    → total (calls r cs).metrics ≡ total r.metrics + length cs
unfolding calls
calls-total [] r = omega arith
calls-total (c ∷ cs) r = omega (arith, calls-total cs (call r c), call-total r c)
