-- ===== src/Bridge/Queues.antt =====
-- What the queues of bridge/reader.py hold after sequences of messages, and of messages and reads.
use ghost_grid.Common.{
  ℕ, suc, append_assoc, append-nil, ◌-◌, ◌≡◌, ◌∙◌, refl, sym, ap, Bool, true, false, ◌||◌,
  Bool-cases, inl, inr, List, [], ◌∷◌, ◌++◌, drop, drop-append, take, take-snoc, last_n,
  last_n-snoc, length, length-append, ltb, if◌then◌else◌, arith, ◌==◌, Dict, lookup, insert, get_or,
  lookup-insert, Floats,
}
use ghost_grid.Bridge.Text.{Text, text_eq, text_eq_iff}
use ghost_grid.Bridge.Protocol.{
  TickMessage, Message, tick_message, fill_message, reject_message, closed_message,
  heartbeat_message,
}
use ghost_grid.Bridge.Reader.{text_key, PipeReader, new_reader, tick_queue, dispatch, check_health}

-- Whether a check finds the last heartbeat more than thirty seconds old.
abbrev pub is_missing : ℕ × ℕ → Bool
is_missing (now, last_heartbeat_ts) = ltb 30000 (now - last_heartbeat_ts)

-- The flag after checks, each at a time and with the time of the last heartbeat.
unfoldable pub check_all : Bool → List (ℕ × ℕ) → Bool
check_all disconnected [] = disconnected
check_all disconnected ((now, last) ∷ checks) =
    check_all (check_health disconnected now last).0 checks

abbrev pub some_missing : List (ℕ × ℕ) → Bool
some_missing [] = false
some_missing (c ∷ checks) = is_missing c || some_missing checks

check_all-flag :
    (disconnected : Bool) (checks : List (ℕ × ℕ))
    → check_all disconnected checks ≡ (disconnected || some_missing checks)
unfolding check_all check_health
check_all-flag disconnected [] = ground arith
check_all-flag disconnected ((now, last) ∷ checks) =
    rw (check_all-flag (check_health disconnected now last).0 checks) (ground arith)

-- Dropping the oldest entry of a full queue before the new one is put, or after it.
make_room {ℓ} :
    {A : Type ℓ} (n : ℕ) (q : List A) (x : A)
    → (if ltb (length q) (suc n) then q else drop 1 q) ++ x ∷ []
      ≡ (if ltb (suc n) (length (q ++ x ∷ [])) then drop 1 (q ++ x ∷ []) else q ++ x ∷ [])
make_room n q x = elim (Bool-cases (ltb (length q) (suc n))) [
  | inl room ↦ rw (room, within room) refl
  | inr full ↦ rw (full, over full) (sym (drop-append 1 q (x ∷ []) (ground (arith, full))))
]
  where
    within : ltb (length q) (suc n) ≡ true → ltb (suc n) (length (q ++ x ∷ [])) ≡ false
    within room = ground (arith, length-append q (x ∷ []))

    over : ltb (length q) (suc n) ≡ false → ltb (suc n) (length (q ++ x ∷ [])) ≡ true
    over full = ground (arith, length-append q (x ∷ []))

put-last_n {ℓ} :
    {A : Type ℓ} (n : ℕ) (s : List A) (x : A)
    → (if ltb (length (last_n (suc n) s)) (suc n)
          then last_n (suc n) s
          else drop 1 (last_n (suc n) s))
        ++ x ∷ []
      ≡ last_n (suc n) (s ++ x ∷ [])
put-last_n n s x = make_room n (last_n (suc n) s) x ∙ last_n-snoc (suc n) s x

module _ ⦃F : Floats⦄ where
  unfoldable pub dispatch_all : PipeReader → List (ℕ × Message) → PipeReader
  dispatch_all r [] = r
  dispatch_all r ((now, message) ∷ messages) = dispatch_all (dispatch now r message) messages

  -- The ticks of a symbol, in order.
  abbrev pub ticks_of_one : Text → Message → List TickMessage
  ticks_of_one symbol (tick_message t) = if t.symbol == symbol then t ∷ [] else []
  ticks_of_one symbol _ = []

  abbrev pub ticks_of : Text → List (ℕ × Message) → List TickMessage
  ticks_of symbol [] = []
  ticks_of symbol ((_, message) ∷ messages) =
      ticks_of_one symbol message ++ ticks_of symbol messages

  -- The fills, rejections and closed positions, in order.
  abbrev pub fills_of_one : Message → List Message
  fills_of_one (tick_message _) = []
  fills_of_one (heartbeat_message _) = []
  fills_of_one message = message ∷ []

  abbrev pub fills_of : List (ℕ × Message) → List Message
  fills_of [] = []
  fills_of ((_, message) ∷ messages) = fills_of_one message ++ fills_of messages

  -- The queues after what was given.
  record Follows (r : PipeReader) (ticks : Text → List TickMessage) (fills : List Message)
      : Type 0 where
    queues : (symbol : Text) → tick_queue r symbol ≡ last_n 50 (ticks symbol)
    fills_kept : r.fill_queue ≡ take 100 fills

  pub queue-insert :
      (symbol k : Text) (v : List TickMessage) (d : Dict Text (List TickMessage))
      → get_or (lookup symbol (insert k v d)) []
        ≡ (if k == symbol then v else get_or (lookup symbol d) [])
  queue-insert symbol k v d = ground (arith, lookup-insert symbol k v d)

  tick-Follows :
      (now : ℕ) (r : PipeReader) (ticks : Text → List TickMessage) (t : TickMessage)
      → ((symbol : Text) → tick_queue r symbol ≡ last_n 50 (ticks symbol))
      → (symbol : Text)
      → tick_queue (dispatch now r (tick_message t)) symbol
        ≡ last_n 50 (ticks symbol ++ ticks_of_one symbol (tick_message t))
  unfolding dispatch tick_queue
  tick-Follows now r ticks t h symbol =
      queue-insert symbol t.symbol _ r.tick_queues ∙ elim (Bool-cases (text_eq t.symbol symbol)) [
        | inl same ↦ rw (same, own same) (put-last_n 49 (ticks symbol) t)
        | inr other ↦ rw (other, append-nil (ticks symbol)) (h symbol)
      ]
    where
      own : text_eq t.symbol symbol ≡ true → tick_queue r t.symbol ≡ last_n 50 (ticks symbol)
      own same = h t.symbol ∙ ap (λ u. last_n 50 (ticks u)) ((text_eq_iff t.symbol symbol).0 same)

  dispatch-Follows :
      (now : ℕ) (r : PipeReader) (ticks : Text → List TickMessage) (fills : List Message)
      (message : Message)
      → Follows r ticks fills
      → Follows
          (dispatch now r message)
          (λ symbol. ticks symbol ++ ticks_of_one symbol message)
          (fills ++ fills_of_one message)
  unfolding dispatch tick_queue
  dispatch-Follows now r ticks fills (tick_message t) v = record {
    queues = λ symbol. tick-Follows now r ticks t v.queues symbol;
    fills_kept = rw (append-nil fills) v.fills_kept;
  }
  dispatch-Follows now r ticks fills (fill_message f) v = record {
    queues = λ symbol. rw (append-nil (ticks symbol)) (v.queues symbol);
    fills_kept = rw v.fills_kept (take-snoc 100 fills (fill_message f));
  }
  dispatch-Follows now r ticks fills (reject_message f) v = record {
    queues = λ symbol. rw (append-nil (ticks symbol)) (v.queues symbol);
    fills_kept = rw v.fills_kept (take-snoc 100 fills (reject_message f));
  }
  dispatch-Follows now r ticks fills (closed_message f) v = record {
    queues = λ symbol. rw (append-nil (ticks symbol)) (v.queues symbol);
    fills_kept = rw v.fills_kept (take-snoc 100 fills (closed_message f));
  }
  dispatch-Follows now r ticks fills (heartbeat_message n) v = record {
    queues = λ symbol. rw (append-nil (ticks symbol)) (v.queues symbol);
    fills_kept = rw (append-nil fills) v.fills_kept;
  }

  run-Follows :
      (r : PipeReader) (ticks : Text → List TickMessage) (fills : List Message)
      (messages : List (ℕ × Message))
      → Follows r ticks fills
      → Follows
          (dispatch_all r messages)
          (λ symbol. ticks symbol ++ ticks_of symbol messages)
          (fills ++ fills_of messages)
  unfolding dispatch_all
  run-Follows r ticks fills [] v = record {
    queues = λ symbol. rw (append-nil (ticks symbol)) (v.queues symbol);
    fills_kept = rw (append-nil fills) v.fills_kept;
  }
  run-Follows r ticks fills ((now, message) ∷ messages) v =
      let w =
        run-Follows (dispatch now r message) _ _ messages
          (dispatch-Follows now r ticks fills message v) in
      record {
        queues = λ symbol.
            w.queues symbol
            ∙ ap (last_n 50) (
                append_assoc (ticks symbol) (ticks_of_one symbol message)
                  (ticks_of symbol messages));
        fills_kept =
            w.fills_kept
            ∙ ap (take 100) (append_assoc fills (fills_of_one message) (fills_of messages));
      }

  -- After any messages that a new reader dispatches and nobody takes, the queue of each symbol holds
  -- the last fifty ticks of that symbol, and the queue of the fills the first hundred fills,
  -- rejections and closed positions.
  pub dispatch_all-kept :
      (now : ℕ) (messages : List (ℕ × Message)) (symbol : Text)
      → let r = dispatch_all (new_reader now) messages in
        (tick_queue r symbol ≡ last_n 50 (ticks_of symbol messages))
        × (r.fill_queue ≡ take 100 (fills_of messages))
  unfolding new_reader tick_queue lookup
  dispatch_all-kept now messages symbol =
      let v =
        run-Follows (new_reader now) (λ symbol. []) [] messages
          (record { queues = λ symbol. refl; fills_kept = refl }) in
      (v.queues symbol, v.fills_kept)
