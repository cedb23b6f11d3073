-- ===== src/Bridge/Delivery.antt =====
-- What the writer of bridge/writer.py makes of the messages given to it, over interleavings with the client
-- of bridge/pipe_client.py.
use ghost_grid.Common.{
  ℕ, ◌+◌, ◌≤◌, ◌<◌, ◌≡◌, refl, ap, Bool, true, false, if-cases, List, [], ◌∷◌, ◌++◌, length,
  length-append, arith,
}
use ghost_grid.Bridge.Text.{Text}
use ghost_grid.Bridge.Client.{Link, writeline}
use ghost_grid.Bridge.Writer.{
  PipeWriter, new_writer, is_full, enqueue, put_message, replace_oldest, count_write, write_next,
  write_round, Step, enqueues, goes_round, connects, reads, closes, step, steps,
}

-- A writer with a bound on its queue.
pub record IsSound (n : ℕ) (w : PipeWriter) : Type 0 where
  pub maxsize : w.queue_maxsize ≡ n
  pub bounded : length w.queue ≤ n
  pub deepest : w.metrics.max_queue_depth ≤ n
  pub accounted :
      w.metrics.total_enqueued
      ≡ w.metrics.total_written
        + w.metrics.write_failures
        + w.metrics.queue_overflows
        + length w.queue
  pub tripped : w.circuit_breaker_open ≡ false → w.circuit_breaker_failures < 5

replace-IsSound :
    (n : ℕ) (w : PipeWriter) (message : Text) (queue : List Text)
    → w.queue ≡ queue
    → n ≤ length queue
    → 0 < n
    → IsSound n w
    → IsSound n (replace_oldest w message queue).0
replace-IsSound n w message [] e full h v = absurd (omega arith)
replace-IsSound n w message (x ∷ rest) e full h v = record {
  maxsize = v.maxsize;
  bounded = omega (arith, v.bounded, ap length e, length-append rest (message ∷ []));
  deepest = v.deepest;
  accounted = omega (arith, v.accounted, ap length e, length-append rest (message ∷ []));
  tripped = v.tripped;
}

put-IsSound :
    (n : ℕ) (w : PipeWriter) (message : Text)
    → is_full w ≡ false
    → 0 < n
    → IsSound n w
    → IsSound n (put_message w message)
put-IsSound n w message room h v = record {
  maxsize = v.maxsize;
  bounded = ground (arith, size, room, v.maxsize, h);
  deepest = ground (arith, size, room, v.maxsize, h, v.deepest);
  accounted = omega (arith, v.accounted, size);
  tripped = v.tripped;
}
  where
    size : length (w.queue ++ message ∷ []) ≡ length w.queue + 1
    size = length-append w.queue (message ∷ [])

enqueue-IsSound :
    (n : ℕ) (w : PipeWriter) (message : Text)
    → 0 < n
    → IsSound n w
    → IsSound n (enqueue w message).0
unfolding enqueue
enqueue-IsSound n w message h v =
    if-cases (λ (r : PipeWriter × Bool). IsSound n r.0) w.circuit_breaker_open (λ _. v)
      λ _.
        if-cases (λ (r : PipeWriter × Bool). IsSound n r.0) (is_full w)
          (λ full. replace-IsSound n w message w.queue refl (ground (arith, v.maxsize, full)) h v)
          (λ room. put-IsSound n w message room h v)

count-IsSound :
    (n : ℕ) (ok : Bool) (now : ℕ) (w : PipeWriter) (message : Text) (rest : List Text)
    → w.queue ≡ message ∷ rest
    → w.circuit_breaker_open ≡ false
    → IsSound n w
    → IsSound n (count_write ok now (record w { queue = rest }))
count-IsSound n true now w message rest e shut v = record {
  maxsize = v.maxsize;
  bounded = omega (arith, v.bounded, ap length e);
  deepest = v.deepest;
  accounted = omega (arith, v.accounted, ap length e);
  tripped = λ _. omega arith;
}
count-IsSound n false now w message rest e shut v = record {
  maxsize = v.maxsize;
  bounded = omega (arith, v.bounded, ap length e);
  deepest = v.deepest;
  accounted = omega (arith, v.accounted, ap length e);
  tripped = λ h. ground arith;
}

write_next-IsSound :
    (n : ℕ) (takes : Bool) (now : ℕ) (w : PipeWriter) (link : Link) (queue : List Text)
    → w.queue ≡ queue
    → w.circuit_breaker_open ≡ false
    → IsSound n w
    → IsSound n (write_next takes now (w, link) queue).0
write_next-IsSound n takes now w link [] e shut v = v
write_next-IsSound n takes now w link (message ∷ rest) e shut v =
    count-IsSound n (writeline takes now link message).1 now w message rest e shut v

round-IsSound :
    (n : ℕ) (takes : Bool) (now : ℕ) (w : PipeWriter) (link : Link)
    → IsSound n w
    → IsSound n (write_round takes now (w, link)).0
unfolding write_round
round-IsSound n takes now w link v =
    if-cases (λ (r : PipeWriter × Link). IsSound n r.0) w.circuit_breaker_open
      (λ _. record {
        maxsize = v.maxsize;
        bounded = v.bounded;
        deepest = v.deepest;
        accounted = v.accounted;
        tripped = λ _. omega arith;
      })
      (λ shut. write_next-IsSound n takes now w link w.queue refl shut v)

module _ (decode : List ℕ → Text) where
  step-IsSound :
      (n : ℕ) (s : PipeWriter × Link) (a : Step)
      → 0 < n
      → IsSound n s.0
      → IsSound n (step decode s a).0
  unfolding step
  step-IsSound n (w, link) (enqueues message) h v = enqueue-IsSound n w message h v
  step-IsSound n (w, link) (goes_round takes now) h v = round-IsSound n takes now w link v
  step-IsSound n (w, (p, wire)) (connects now create) h v = v
  step-IsSound n (w, (p, wire)) (reads now bytes) h v = v
  step-IsSound n (w, (p, wire)) closes h v = v

  steps-keeps :
      (n : ℕ) (s : PipeWriter × Link) (actions : List Step)
      → 0 < n
      → IsSound n s.0
      → IsSound n (steps decode s actions).0
  unfolding steps
  steps-keeps n s [] h v = v
  steps-keeps n s (a ∷ actions) h v =
      steps-keeps n (step decode s a) actions h (step-IsSound n s a h v)

  -- In any interleaving of messages for a new writer with a positive bound, rounds of its loop, and
  -- connects, reads and closes of the pipe, the queue and its greatest depth keep the bound, the
  -- messages enqueued are as many as those written, failed, dropped by overflow and queued, and
  -- fewer than five failures are counted unless the breaker is open.
  pub steps-IsSound :
      (n : ℕ) (link : Link) (actions : List Step)
      → 0 < n
      → IsSound n (steps decode (new_writer n, link) actions).0
  unfolding new_writer
  steps-IsSound n link actions h =
      steps-keeps n (new_writer n, link) actions h
        (record {
          maxsize = refl;
          bounded = omega arith;
          deepest = omega arith;
          accounted = omega arith;
          tripped = λ _. omega arith;
        })
