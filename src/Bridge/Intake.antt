-- ===== src/Bridge/Intake.antt =====
-- Lines that bridge/reader.py takes from the pipe, between reads of its queues by other tasks.
use ghost_grid.Common.{
  ℕ, ◌≤◌, ◌≡◌, refl, sym, subst, Bool-cases, inl, inr, Option, none, some, List, [], ◌∷◌, ◌++◌,
  drop, All, All-append, All-drop, length, length-append, length-drop, ltb, if◌then◌else◌, arith,
  lookup, insert, get_or, Floats, Float,
}
use ghost_grid.Bridge.Text.{Text, text_eq, text_eq_iff}
use ghost_grid.Bridge.Protocol.{
  ParseMetrics, TickMessage, Message, tick_message, fill_message, reject_message, closed_message,
  heartbeat_message, parse_inbound,
}
use ghost_grid.Bridge.Ranges.{InRange, IsTick}
use ghost_grid.Bridge.Accepted.{parse_inbound-InRange}
use ghost_grid.Bridge.Reader.{
  text_key, PipeReader, new_reader, tick_queue, dispatch, dispatch_parsed, count_line, read_round,
}
use ghost_grid.Bridge.Queues.{queue-insert}

module _ ⦃F : Floats⦄ where
  -- A round of the reader at a time, or a read of a queue, which takes its oldest entry.
  pub data Action : Type 0 where
    reads : ℕ → Option Text → Action
    takes_tick : Text → Action
    takes_fill : Action

  unfoldable pub act :
      (Text → Option Float) → PipeReader × ParseMetrics → Action → PipeReader × ParseMetrics
  act parse_float s (reads now line) = read_round parse_float now s line
  act parse_float (r, m) (takes_tick symbol) =
      (record r { tick_queues = insert symbol (drop 1 (tick_queue r symbol)) r.tick_queues }, m)
  act parse_float (r, m) takes_fill = (record r { fill_queue = drop 1 r.fill_queue }, m)

  unfoldable pub act_all :
      (Text → Option Float) → PipeReader × ParseMetrics → List Action → PipeReader × ParseMetrics
  act_all parse_float s [] = s
  act_all parse_float s (a ∷ actions) = act_all parse_float (act parse_float s a) actions

  -- A queue of ticks of one symbol.
  abbrev pub IsTickQueue : Text → List TickMessage → Type 0
  IsTickQueue symbol q = (length q ≤ 50) × All (λ t. IsTick t × (t.symbol ≡ symbol)) q

  abbrev pub IsFillQueue : List Message → Type 0
  IsFillQueue q = (length q ≤ 100) × All InRange q

  pub record IsIntake (r : PipeReader) : Type 0 where
    pub ticks : (symbol : Text) → IsTickQueue symbol (tick_queue r symbol)
    pub fills : IsFillQueue r.fill_queue

  put-IsTickQueue :
      (q : List TickMessage) (t : TickMessage)
      → IsTickQueue t.symbol q
      → IsTick t
      → IsTickQueue t.symbol ((if ltb (length q) 50 then q else drop 1 q) ++ t ∷ [])
  put-IsTickQueue q t v h = elim (Bool-cases (ltb (length q) 50)) [
    | inl room ↦
        rw room
          (ground (arith, length-append q (t ∷ [])), All-append _ q (t ∷ []) v.1 ((h, refl), tt))
    | inr full ↦ rw full (
      ground (arith, length-append (drop 1 q) (t ∷ []), length-drop 1 q),
      All-append _ (drop 1 q) (t ∷ []) (All-drop _ 1 q v.1) ((h, refl), tt),
    )
  ]

  inserted :
      (r : PipeReader) (k : Text) (q : List TickMessage)
      → ((symbol : Text) → IsTickQueue symbol (tick_queue r symbol))
      → IsTickQueue k q
      → (symbol : Text) → IsTickQueue symbol (get_or (lookup symbol (insert k q r.tick_queues)) [])
  unfolding tick_queue
  inserted r k q v h symbol =
      subst (IsTickQueue symbol) (sym (queue-insert symbol k q r.tick_queues))
        (elim (Bool-cases (text_eq k symbol)) [
          | inl same ↦ rw same (subst (λ u. IsTickQueue u q) ((text_eq_iff k symbol).0 same) h)
          | inr other ↦ rw other (v symbol)
        ])

  put_fill-IsFillQueue :
      (q : List Message) (message : Message)
      → IsFillQueue q
      → InRange message
      → IsFillQueue (if ltb (length q) 100 then q ++ message ∷ [] else q)
  put_fill-IsFillQueue q message v h = elim (Bool-cases (ltb (length q) 100)) [
    | inl room ↦ rw room (
      ground (arith, length-append q (message ∷ [])),
      All-append InRange q (message ∷ []) v.1 (h, tt),
    )
    | inr full ↦ rw full v
  ]

  dispatch-IsIntake :
      (now : ℕ) (r : PipeReader) (message : Message)
      → InRange message
      → IsIntake r
      → IsIntake (dispatch now r message)
  unfolding dispatch tick_queue InRange
  dispatch-IsIntake now r (tick_message t) h v = record {
    ticks =
        inserted r t.symbol _ v.ticks
          (put-IsTickQueue (tick_queue r t.symbol) t (v.ticks t.symbol) h);
    fills = v.fills;
  }
  dispatch-IsIntake now r (fill_message f) h v = record {
    ticks = v.ticks;
    fills = put_fill-IsFillQueue r.fill_queue (fill_message f) v.fills h;
  }
  dispatch-IsIntake now r (reject_message f) h v = record {
    ticks = v.ticks;
    fills = put_fill-IsFillQueue r.fill_queue (reject_message f) v.fills h;
  }
  dispatch-IsIntake now r (closed_message f) h v = record {
    ticks = v.ticks;
    fills = put_fill-IsFillQueue r.fill_queue (closed_message f) v.fills h;
  }
  dispatch-IsIntake now r (heartbeat_message n) h v = record { ticks = v.ticks; fills = v.fills }

  parsed-IsIntake :
      (now : ℕ) (r : PipeReader) (o : Option Message)
      → ((message : Message) → o ≡ some message → InRange message)
      → IsIntake r
      → IsIntake (dispatch_parsed now r o)
  unfolding tick_queue
  parsed-IsIntake now r none h v = v
  parsed-IsIntake now r (some message) h v =
      let w = dispatch-IsIntake now r message (h message refl) v in
      record { ticks = w.ticks; fills = w.fills }

  act-IsIntake :
      (parse_float : Text → Option Float) (r : PipeReader) (m : ParseMetrics) (a : Action)
      → IsIntake r
      → IsIntake (act parse_float (r, m) a).0
  unfolding act read_round tick_queue
  act-IsIntake parse_float r m (reads now none) v = v
  act-IsIntake parse_float r m (reads now (some line)) v =
      parsed-IsIntake now (count_line now r) (parse_inbound parse_float m line).1
        (parse_inbound-InRange parse_float m line) (record { ticks = v.ticks; fills = v.fills })
  act-IsIntake parse_float r m (takes_tick symbol) v = record {
    ticks = inserted r symbol _ v.ticks (
      omega (arith, length-drop 1 (tick_queue r symbol), (v.ticks symbol).0),
      All-drop _ 1 (tick_queue r symbol) (v.ticks symbol).1,
    );
    fills = v.fills;
  }
  act-IsIntake parse_float r m takes_fill v = record {
    ticks = v.ticks;
    fills = (
      omega (arith, length-drop 1 r.fill_queue, v.fills.0),
      All-drop InRange 1 r.fill_queue v.fills.1,
    );
  }

  run-IsIntake :
      (parse_float : Text → Option Float) (r : PipeReader) (m : ParseMetrics)
      (actions : List Action)
      → IsIntake r
      → IsIntake (act_all parse_float (r, m) actions).0
  unfolding act_all
  run-IsIntake parse_float r m [] v = v
  run-IsIntake parse_float r m (a ∷ actions) v =
      run-IsIntake parse_float (act parse_float (r, m) a).0 (act parse_float (r, m) a).1 actions
        (act-IsIntake parse_float r m a v)

  new_reader-IsIntake : (started : ℕ) → IsIntake (new_reader started)
  unfolding new_reader tick_queue lookup
  new_reader-IsIntake started = record {
    ticks = λ symbol. (omega arith, tt);
    fills = (omega arith, tt);
  }

  -- After any interleaving of lines read, also malformed ones, and of reads of the queues by other
  -- tasks, each queue of ticks holds at most fifty, all of its symbol and in range, and the queue of
  -- the fills at most a hundred messages, all in range.
  pub act_all-IsIntake :
      (parse_float : Text → Option Float) (started : ℕ) (m : ParseMetrics) (actions : List Action)
      → IsIntake (act_all parse_float (new_reader started, m) actions).0
  act_all-IsIntake parse_float started m actions =
      run-IsIntake parse_float (new_reader started) m actions (new_reader-IsIntake started)
