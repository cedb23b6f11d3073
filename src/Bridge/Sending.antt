-- ===== src/Bridge/Sending.antt =====
-- What reaches the pipe of the messages given to the writer of bridge/writer.py: their order, and what a
-- pipe that takes lines or refuses them makes of the queue.
use mathlib.Core.List.{Sublist}
use mathlib.Core.List.Sublist
use ghost_grid.Common.{
  ℕ, suc, ◌+◌, ◌≤◌, ◌<◌, ◌≡◌, ◌∙◌, refl, sym, ap, subst, Bool, true, false, if-cases, Bool-cases,
  inl, inr, leb, if◌then◌else◌, List, [], ◌∷◌, ◌++◌, map, append_assoc, append-nil, length, drop,
  arith,
}
use ghost_grid.Bridge.Text.{Text}
use ghost_grid.Bridge.Client.{
  PipeClient, new_client, Link, is_usable, line_of, take_write, writeline,
}
use ghost_grid.Bridge.Writer.{
  PipeWriter, new_writer, is_full, enqueue, replace_oldest, count_write, write_next, write_round,
  Step, enqueues, goes_round, connects, reads, closes, step, steps, taken, accepted,
}

map-append {ℓ κ} :
    {A : Type ℓ} {B : Type κ} (f : A → B) (xs ys : List A) → map f (xs ++ ys) ≡ map f xs ++ map f ys
map-append f [] ys = refl
map-append f (x ∷ xs) ys = ap (λ r. f x ∷ r) (map-append f xs ys)

-- What the pipe took, and what the queue holds for it.
abbrev pub contents : PipeWriter × Link → List Text
contents (w, (p, wire)) = wire ++ map line_of w.queue

abbrev lines : List Text → List Text
lines messages = map line_of messages

-- A list that loses an entry after a prefix.
skip-Sublist {ℓ} : {A : Type ℓ} (xs ys : List A) (x : A) → Sublist (xs ++ ys) (xs ++ x ∷ ys)
skip-Sublist xs ys x = Sublist.append (Sublist.refl xs) (Sublist.cons x (Sublist.refl ys))

replace-contents :
    (w : PipeWriter) (link : Link) (message : Text) (queue : List Text)
    → w.queue ≡ queue
    → Sublist (contents ((replace_oldest w message queue).0, link)) (
        contents (w, link)
        ++ lines (if (replace_oldest w message queue).1 then message ∷ [] else []))
replace-contents w (p, wire) message [] e = rw append-nil (Sublist.refl _)
replace-contents w (p, wire) message (x ∷ rest) e =
    rw (e, map-append line_of rest (message ∷ []), append_assoc)
      (skip-Sublist wire (map line_of rest ++ line_of message ∷ []) (line_of x))

enqueue-contents :
    (w : PipeWriter) (link : Link) (message : Text)
    → Sublist
        (contents ((enqueue w message).0, link))
        (contents (w, link) ++ lines (if (enqueue w message).1 then message ∷ [] else []))
unfolding enqueue
enqueue-contents w (p, wire) message =
    if-cases P w.circuit_breaker_open (λ _. rw append-nil (Sublist.refl _))
      λ _.
        if-cases P (is_full w) (λ _. replace-contents w (p, wire) message w.queue refl)
          (λ _. rw (map-append line_of w.queue (message ∷ []), append_assoc) (Sublist.refl _))
  where
    P : PipeWriter × Bool → Type 0
    P r =
        Sublist (contents (r.0, (p, wire)))
          (contents (w, (p, wire)) ++ lines (if r.1 then message ∷ [] else []))

-- A line that is written moves from the queue to the pipe; one that is not is lost.
write-contents :
    (takes : Bool) (now : ℕ) (w : PipeWriter) (link : Link) (queue : List Text)
    → w.queue ≡ queue
    → Sublist (contents (write_next takes now (w, link) queue)) (contents (w, link))
unfolding writeline
write-contents takes now w link [] e = Sublist.refl _
write-contents takes now w (p, wire) (message ∷ rest) e =
    if-cases P (is_usable p) (λ _. of_write takes) λ _. lost
  where
    P : Link × Bool → Type 0
    P r =
        Sublist (contents (count_write r.1 now (record w { queue = rest }), r.0))
          (contents (w, (p, wire)))

    lost : Sublist (wire ++ map line_of rest) (wire ++ map line_of w.queue)
    lost = rw e (skip-Sublist wire (map line_of rest) (line_of message))

    of_write : (b : Bool) → P (take_write b now (p, wire) message)
    of_write true = rw (e, append_assoc) (Sublist.refl _)
    of_write false = lost

round-contents :
    (takes : Bool) (now : ℕ) (w : PipeWriter) (link : Link)
    → Sublist (contents (write_round takes now (w, link))) (contents (w, link))
unfolding write_round
round-contents takes now w link =
    if-cases (λ (r : PipeWriter × Link). Sublist (contents r) (contents (w, link)))
      w.circuit_breaker_open (λ _. Sublist.refl _)
      (λ _. write-contents takes now w link w.queue refl)

-- A new writer with a new client.
abbrev pub new_pair : ℕ → PipeWriter × Link
new_pair maxsize = (new_writer maxsize, (new_client, []))

module _ (decode : List ℕ → Text) where
  step-contents :
      (s : PipeWriter × Link) (a : Step)
      → Sublist (contents (step decode s a)) (contents s ++ lines (taken decode s a))
  unfolding step
  step-contents (w, link) (enqueues message) = enqueue-contents w link message
  step-contents (w, link) (goes_round takes now) = rw append-nil (round-contents takes now w link)
  step-contents (w, (p, wire)) (connects now create) = rw append-nil (Sublist.refl _)
  step-contents (w, (p, wire)) (reads now bytes) = rw append-nil (Sublist.refl _)
  step-contents (w, (p, wire)) closes = rw append-nil (Sublist.refl _)

  steps-contents :
      (s : PipeWriter × Link) (actions : List Step)
      → Sublist
          (contents (steps decode s actions))
          (contents s ++ lines (accepted decode s actions))
  unfolding steps accepted
  steps-contents s [] = rw append-nil (Sublist.refl _)
  steps-contents s (a ∷ actions) =
      rw (map-append line_of (taken decode s a) (accepted decode (step decode s a) actions)) (
        Sublist.trans (steps-contents (step decode s a) actions)
          (rw⁻¹ append_assoc (Sublist.append (step-contents s a) (Sublist.refl _))))

  -- In any interleaving of messages for a new writer, rounds of its loop, and connects, reads and
  -- closes of a new client, the texts that the pipe took, followed by the lines of the messages
  -- still queued, are a sublist of the lines of the accepted messages: in their order, and none more
  -- often than it was accepted.
  pub steps-ordered :
      (maxsize : ℕ) (actions : List Step)
      → Sublist
          (contents (steps decode (new_pair maxsize) actions))
          (map line_of (accepted decode (new_pair maxsize) actions))
  unfolding new_writer
  steps-ordered maxsize actions = steps-contents (new_pair maxsize) actions

-- Rounds of the loop with a pipe that takes each line, or refuses each.
unfoldable pub write_rounds : Bool → List ℕ → PipeWriter × Link → PipeWriter × Link
write_rounds takes [] s = s
write_rounds takes (now ∷ times) s = write_rounds takes times (write_round takes now s)

-- A state in which every message was written.
abbrev pub IsDrained : List Text → PipeWriter × Link → Type 0
IsDrained wire (w, (p, wire')) = (w.queue ≡ []) × (wire' ≡ wire) × (w.circuit_breaker_open ≡ false)

-- The writer after the cooldown of its breaker.
abbrev cooled : PipeWriter → PipeWriter
cooled w = record w { circuit_breaker_open = false; circuit_breaker_failures = 0 }

round-shut :
    (takes : Bool) (now : ℕ) (w : PipeWriter) (link : Link) (queue : List Text)
    → w.queue ≡ queue
    → w.circuit_breaker_open ≡ false
    → write_round takes now (w, link) ≡ write_next takes now (w, link) queue
unfolding write_round
round-shut takes now w link queue e shut =
    ap (λ b. if b then (cooled w, link) else write_next takes now (w, link) w.queue) shut
    ∙ ap (write_next takes now (w, link)) e

round-tripped :
    (takes : Bool) (now : ℕ) (w : PipeWriter) (link : Link)
    → w.circuit_breaker_open ≡ true
    → write_round takes now (w, link) ≡ (cooled w, link)
unfolding write_round
round-tripped takes now w link tripped =
    ap (λ b. if b then (cooled w, link) else write_next takes now (w, link) w.queue) tripped

next-taken :
    (now : ℕ) (w : PipeWriter) (p : PipeClient) (wire : List Text) (message : Text)
    (rest : List Text)
    → is_usable p ≡ true
    → write_next true now (w, (p, wire)) (message ∷ rest) ≡ (
      count_write true now (record w { queue = rest }),
      (take_write true now (p, wire) message).0,
    )
unfolding writeline
next-taken now w p wire message rest usable =
    ap
      (λ b.
        let r = if b then take_write true now (p, wire) message else ((p, wire), false) in
        (count_write r.1 now (record w { queue = rest }), r.0))
      usable

shut-IsDrained :
    (times : List ℕ) (w : PipeWriter) (p : PipeClient) (wire queue : List Text)
    → w.queue ≡ queue
    → w.circuit_breaker_open ≡ false
    → is_usable p ≡ true
    → length queue ≤ length times
    → IsDrained (wire ++ map line_of queue) (write_rounds true times (w, (p, wire)))
unfolding write_rounds
shut-IsDrained [] w p wire [] e shut usable h = (e, sym (append-nil wire), shut)
shut-IsDrained [] w p wire (message ∷ queue) e shut usable h = absurd (omega arith)
shut-IsDrained (now ∷ times) w p wire [] e shut usable h =
    subst (λ s. IsDrained (wire ++ []) (write_rounds true times s))
      (sym (round-shut true now w (p, wire) [] e shut))
      (shut-IsDrained times w p wire [] e shut usable (omega arith))
shut-IsDrained (now ∷ times) w p wire (message ∷ queue) e shut usable h =
    subst (λ s. IsDrained (wire ++ line_of message ∷ map line_of queue) (write_rounds true times s))
      (sym (
        round-shut true now w (p, wire) (message ∷ queue) e shut
        ∙ next-taken now w p wire message queue usable))
      (rw (append_assoc wire (line_of message ∷ []) (map line_of queue)) at (
        shut-IsDrained times (count_write true now (record w { queue = queue }))
          (take_write true now (p, wire) message).0.0 (wire ++ line_of message ∷ []) queue refl shut
          usable (omega arith)))

-- Where the client is connected with a handle and the pipe takes each line, more rounds of the loop
-- than the queue has messages write them all, in order, after what was written before, and leave the
-- queue empty and the breaker shut, also where it was open.
pub write_rounds-IsDrained :
    (times : List ℕ) (w : PipeWriter) (p : PipeClient) (wire : List Text)
    → is_usable p ≡ true
    → length w.queue < length times
    → IsDrained (wire ++ map line_of w.queue) (write_rounds true times (w, (p, wire)))
unfolding write_rounds
write_rounds-IsDrained [] w p wire usable h = absurd (omega arith)
write_rounds-IsDrained (now ∷ times) w p wire usable h = elim (Bool-cases w.circuit_breaker_open) [
  | inl tripped ↦
      subst (λ s. IsDrained (wire ++ map line_of w.queue) (write_rounds true times s))
        (sym (round-tripped true now w (p, wire) tripped))
        (shut-IsDrained times (cooled w) p wire w.queue refl refl usable (omega arith))
  | inr shut ↦ shut-IsDrained (now ∷ times) w p wire w.queue refl shut usable (omega arith)
]

-- The state after so many failures in a row.
pub record IsOutage (w : PipeWriter) (wire : List Text) (k : ℕ) (s : PipeWriter × Link)
    : Type 0 where
  pub lost : s.0.queue ≡ drop k w.queue
  pub unsent : s.1.1 ≡ wire
  pub tripped : s.0.circuit_breaker_open ≡ leb 5 (w.circuit_breaker_failures + k)
  pub counted : s.0.metrics.write_failures ≡ w.metrics.write_failures + k

failed_once :
    (w : PipeWriter) (now k : ℕ) (wire : List Text) (message : Text) (rest : List Text)
    (s : PipeWriter × Link)
    → w.queue ≡ message ∷ rest
    → IsOutage (count_write false now (record w { queue = rest })) wire k s
    → IsOutage w wire (suc k) s
failed_once w now k wire message rest s e v = record {
  lost = v.lost ∙ ap (drop (suc k)) (sym e);
  unsent = v.unsent;
  tripped = v.tripped ∙ ap (leb 5) (omega arith);
  counted = omega (arith, v.counted);
}

fails-IsOutage :
    (times : List ℕ) (w : PipeWriter) (p : PipeClient) (wire queue : List Text)
    → w.queue ≡ queue
    → w.circuit_breaker_open ≡ leb 5 w.circuit_breaker_failures
    → length times ≤ length queue
    → w.circuit_breaker_failures + length times ≤ 5
    → IsOutage w wire (length times) (write_rounds false times (w, (p, wire)))
unfolding write_rounds writeline
fails-IsOutage [] w p wire queue e tripped h k = record {
  lost = refl;
  unsent = refl;
  tripped = tripped ∙ ap (leb 5) (omega arith);
  counted = omega arith;
}
fails-IsOutage (now ∷ times) w p wire [] e tripped h k = absurd (omega arith)
fails-IsOutage (now ∷ times) w p wire (message ∷ rest) e tripped h k =
    subst (λ s. IsOutage w wire (suc (length times)) (write_rounds false times s))
      (sym (round-shut false now w (p, wire) (message ∷ rest) e shut))
      (if-cases
        (λ (r : Link × Bool).
          IsOutage w wire (suc (length times))
            (write_rounds false times (count_write r.1 now (record w { queue = rest }), r.0)))
        (is_usable p)
        (λ _. once (
          fails-IsOutage times failed (take_write false now (p, wire) message).0.0 wire rest refl
            still (omega arith) (omega arith)))
        (λ _.
          once (fails-IsOutage times failed p wire rest refl still (omega arith) (omega arith))))
  where
    shut : w.circuit_breaker_open ≡ false
    shut = ground (arith, tripped, k)

    failed : PipeWriter
    failed = count_write false now (record w { queue = rest })

    still : failed.circuit_breaker_open ≡ leb 5 failed.circuit_breaker_failures
    still = ground (arith, shut)

    once :
        {s : PipeWriter × Link}
        → IsOutage failed wire (length times) s
        → IsOutage w wire (suc (length times)) s
    once {s} = failed_once w now (length times) wire message rest s e

-- Where the breaker is shut with no failures counted and the pipe takes no line, up to five rounds,
-- and not more than the queue has messages, drop as many messages from the front of the queue, send
-- none, count as many failures, and open the breaker exactly when they are five.
pub write_rounds-IsOutage :
    (times : List ℕ) (w : PipeWriter) (p : PipeClient) (wire : List Text)
    → w.circuit_breaker_open ≡ false
    → w.circuit_breaker_failures ≡ 0
    → length times ≤ length w.queue
    → length times ≤ 5
    → IsOutage w wire (length times) (write_rounds false times (w, (p, wire)))
write_rounds-IsOutage times w p wire shut none h k =
    fails-IsOutage times w p wire w.queue refl (ground (arith, shut, none)) h (omega arith)
