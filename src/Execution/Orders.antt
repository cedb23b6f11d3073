-- ===== src/Execution/Orders.antt =====
-- What execution/commander.py counts and returns for an order.
use ghost_grid.Common.{
  ℕ, subst, sym, ◌+◌, ◌≤◌, ◌≡◌, ◌∙◌, refl, String, true, false, Bool-cases, inl, inr, Option, none,
  some, List, [], ◌∷◌, is_some, lookup, lookup-erase_self, if◌then◌else◌, arith, string_eq, Floats,
  Float,
}
use ghost_grid.Bridge.Text.{Text}
use ghost_grid.Bridge.Protocol.{Message}
use ghost_grid.Execution.Retry.{mark_success, mark_failed, should_retry}
use ghost_grid.Execution.Leverage.{calculate_leverage}
use ghost_grid.Execution.Fills.{FillResult}
use ghost_grid.Execution.Dispatcher.{
  DispatchMetrics, CommandType, close_command, nuclear_all, count_command, Formats,
  ExecutionCommand, order_command, Attempt, Io, done, timed_out, broke, PipeDispatcher,
  dispatch_command, end_dispatch, command_text, utf8_length,
}
use ghost_grid.Execution.Commander.{
  Commander, Ended, returns, continues, wait, fall_back, confirm, attempt_once, after_first,
  after_second, dispatch_with_retry, is_fill, is_opened, ValidatedOrder, settle, count_opened,
  count_not_opened, order_of, open_position,
}

module _ ⦃F : Floats⦄ where
  -- The metrics of the commander stay, and some order commands are sent.
  record Sends (n : ℕ) (s s' : Commander) : Type 0 where
    kept : s'.metrics ≡ s.metrics
    orders : s'.dispatcher.metrics.orders_sent ≡ s.dispatcher.metrics.orders_sent + n

  Sends-trans :
      (m n : ℕ) (s s' s'' : Commander) → Sends m s s' → Sends n s' s'' → Sends (m + n) s s''
  Sends-trans m n s s' s'' v w = record {
    kept = w.kept ∙ v.kept;
    orders = omega (arith, v.orders, w.orders);
  }

  Sends-none : (s : Commander) → Sends 0 s s
  Sends-none s = record { kept = refl; orders = omega arith }

  end_dispatch-orders :
      (f : Formats) (d : PipeDispatcher) (c : ExecutionCommand) (m : DispatchMetrics) (a : Attempt)
      (io : Io)
      → (end_dispatch f d c m a io).0.metrics.orders_sent ≡ m.orders_sent
  end_dispatch-orders f d c m a done =
      elim a.paper_mode
        as (λ b.
          (if b then m else record m {
            bytes_written = m.bytes_written + utf8_length (command_text f c);
          }).orders_sent
          ≡ m.orders_sent) [ true ↦ refl | false ↦ refl ]
  end_dispatch-orders f d c m a timed_out = refl
  end_dispatch-orders f d c m a broke = refl

  count_command-orders :
      (m : DispatchMetrics) (kind : CommandType)
      → kind ≡ order_command
      → (count_command m kind).orders_sent ≡ m.orders_sent + 1
  count_command-orders m order_command e = refl
  count_command-orders m close_command e = cc
  count_command-orders m nuclear_all e = cc

  dispatch-orders :
      (f : Formats) (d : PipeDispatcher) (c : ExecutionCommand) (a : Attempt)
      → c.command_type ≡ order_command
      → (dispatch_command f d c a).0.metrics.orders_sent ≡ d.metrics.orders_sent + 1
  unfolding dispatch_command
  dispatch-orders f d c a e =
      end_dispatch-orders f d c (count_command d.metrics c.command_type) a a.io
      ∙ count_command-orders d.metrics c.command_type e

  wait-Sends :
      (f : Formats) (s : Commander) (request_id : String) (a : Attempt)
      (queue : Option (List Message))
      → Sends 0 s (wait f s request_id a queue).0
  wait-Sends f s request_id a none = Sends-none s
  wait-Sends f s request_id a (some queue) = record { kept = refl; orders = omega arith }

  fall_back-Sends :
      (f : Formats) (s : Commander) (request_id : String) (c : ExecutionCommand) (a : Attempt)
      (response : Option Text)
      → Sends 0 s (fall_back f s request_id c a response).0
  fall_back-Sends f s request_id c a none = Sends-none s
  fall_back-Sends f s request_id c a (some []) = Sends-none s
  fall_back-Sends f s request_id c a (some (x ∷ text)) = record {
    kept = refl;
    orders = omega arith;
  }

  confirm-Sends :
      (f : Formats) (s : Commander) (request_id : String) (c : ExecutionCommand) (a : Attempt)
      → Sends 0 s (confirm f s request_id c a).0
  confirm-Sends f s request_id c a =
      let w = wait f s request_id a s.fill_queue in
      let fallen = fall_back f w.0 request_id c a w.0.dispatcher.last_response in
      let v = wait-Sends f s request_id a s.fill_queue in
      elim (is_fill w.1) as (λ b. Sends 0 s (if b then (w.0, returns w.1) else fallen).0) [
        | true ↦ v
        | false ↦
            Sends-trans 0 0 s w.0 fallen.0 v
              (fall_back-Sends f w.0 request_id c a w.0.dispatcher.last_response)
      ]

  attempt-Sends :
      (f : Formats) (s : Commander) (request_id : String) (c : ExecutionCommand) (a : Attempt)
      → c.command_type ≡ order_command
      → Sends 1 s (attempt_once f s request_id c a).0
  unfolding attempt_once
  attempt-Sends f s request_id c a e =
      let d = dispatch_command f s.dispatcher c a in
      let s' = record s { dispatcher = d.0 } in
      let r = should_retry s.orchestrator request_id none (some "Dispatch failed") in
      let first : Sends 1 s s' = record {
        kept = refl;
        orders = dispatch-orders f s.dispatcher c a e;
      } in
      elim d.1
        as (λ b.
          Sends 1 s
            (if b
              then confirm f s' request_id c a
              else (record s' { orchestrator = r.0 }, if r.1 then continues else returns none)).0) [
                | true ↦
                    Sends-trans 1 0 s s' (confirm f s' request_id c a).0 first
                      (confirm-Sends f s' request_id c a)
                | false ↦ record { kept = refl; orders = dispatch-orders f s.dispatcher c a e }
              ]

  -- One or two.
  SendsTwice : Commander → Commander → Type 0
  SendsTwice s s' = (n : ℕ) × (1 ≤ n) × (n ≤ 2) × Sends n s s'

  second-Sends : (e : Commander × Ended) → (after_second e).0 ≡ e.0
  second-Sends (s, returns result) = refl
  second-Sends (s, continues) = refl

  first-SendsTwice :
      (f : Formats) (s0 : Commander) (request_id : String) (c : ExecutionCommand) (a : Attempt)
      (e : Commander × Ended)
      → c.command_type ≡ order_command
      → Sends 1 s0 e.0
      → SendsTwice s0 (after_first f request_id c a e).0
  unfolding SendsTwice
  first-SendsTwice f s0 request_id c a (s, returns result) o v = (1, omega arith, omega arith, v)
  first-SendsTwice f s0 request_id c a (s, continues) o v = (
    2,
    omega arith,
    omega arith,
    subst (Sends 2 s0) (sym (second-Sends (attempt_once f s request_id c a))) (
        Sends-trans 1 1 s0 s (attempt_once f s request_id c a).0 v
          (attempt-Sends f s request_id c a o)),
  )

  -- An order is one success or one failure; it is opened exactly when a result comes back.
  pub record IsSettled (s : Commander) (request_id : String) (s' : Commander)
      (result : Option FillResult) : Type 0 where
    pub opened : is_opened result ≡ is_some result
    pub successes :
        s'.metrics.execution_successes
        ≡ s.metrics.execution_successes + (if is_some result then 1 else 0)
    pub failures :
        s'.metrics.execution_failures
        ≡ s.metrics.execution_failures + (if is_some result then 0 else 1)
    pub positions :
        s'.metrics.open_position_count
        ≡ s.metrics.open_position_count + (if is_some result then 1 else 0)
    pub untracked : lookup request_id s'.orchestrator.retries ≡ none
    pub least : s.dispatcher.metrics.orders_sent + 1 ≤ s'.dispatcher.metrics.orders_sent
    pub most : s'.dispatcher.metrics.orders_sent ≤ s.dispatcher.metrics.orders_sent + 2

  count_opened-IsSettled :
      (s0 s : Commander) (r : FillResult) (request_id : String)
      → SendsTwice s0 s
      → is_opened (some r) ≡ true
      → IsSettled s0 request_id (count_opened s request_id) (some r)
  unfolding SendsTwice mark_success
  count_opened-IsSettled s0 s r request_id (n, low, high, v) yes_opened = record {
    opened = yes_opened;
    successes = rw v.kept (omega arith);
    failures = rw v.kept (omega arith);
    positions = rw v.kept (omega arith);
    untracked = lookup-erase_self request_id s.orchestrator.retries;
    least = omega (arith, low, v.orders);
    most = omega (arith, high, v.orders);
  }

  count_not_opened-IsSettled :
      (s0 s : Commander) (request_id : String)
      → SendsTwice s0 s
      → IsSettled s0 request_id (count_not_opened s request_id) none
  unfolding SendsTwice mark_failed
  count_not_opened-IsSettled s0 s request_id (n, low, high, v) = record {
    opened = refl;
    successes = rw v.kept (omega arith);
    failures = rw v.kept (omega arith);
    positions = rw v.kept (omega arith);
    untracked = lookup-erase_self request_id s.orchestrator.retries;
    least = omega (arith, low, v.orders);
    most = omega (arith, high, v.orders);
  }

  settle-IsSettled :
      (s0 s : Commander) (result : Option FillResult) (request_id : String)
      → SendsTwice s0 s
      → IsSettled s0 request_id (settle (s, result) request_id).0 (settle (s, result) request_id).1
  settle-IsSettled s0 s none request_id v = count_not_opened-IsSettled s0 s request_id v
  settle-IsSettled s0 s (some r) request_id v = elim (Bool-cases (is_opened (some r))) [
    | inl yes_opened ↦ rw yes_opened (count_opened-IsSettled s0 s r request_id v yes_opened)
    | inr not_opened ↦ rw not_opened (count_not_opened-IsSettled s0 s request_id v)
  ]

  -- Whatever happens to the pipe, the queue and the clock in the attempts, an order sends one or two
  -- commands, ends as one success or one failure, counts an open position exactly on success, leaves
  -- no retry of it behind, and returns a result exactly when its status is FILL or SENT.
  pub open_position-IsSettled :
      (f : Formats) (s : Commander) (order : ValidatedOrder) (atr price : Float)
      (first second : Attempt)
      → let r = open_position f s order atr price first second in
        IsSettled s order.request_id r.0 r.1
  unfolding open_position dispatch_with_retry
  open_position-IsSettled f s order atr price first second =
      let s' = record s { leverage = (calculate_leverage s.leverage atr price).0 } in
      let c = order_of order price in
      let e = attempt_once f s' order.request_id c first in
      let v = attempt-Sends f s' order.request_id c first refl in
      let r = after_first f order.request_id c second e in
      settle-IsSettled s r.0 r.1 order.request_id (
        first-SendsTwice f s order.request_id c second e refl
          (Sends-trans 0 1 s s' e.0 (record { kept = refl; orders = omega arith }) v))
