-- ===== src/Positions/Exits.antt =====
-- What one tick of positions/state_machine.py decides: the exits, the states and the trail.
use ghost_grid.Common.{
  ℕ, suc, String, ◌+◌, ◌*◌, ◌≡◌, ◌≢◌, refl, ◌⊎◌, ◌↔◌, inl, inr, true, false, not, ap, Option, none,
  some, List, [], ◌∷◌, ◌++◌, arith, length, length-append, Floats, Float, ◌≤?◌, ◌<?◌, zero_f, fmax,
  Option-cases, le-fmax_left, le-fmax_right, lte_refl,
}
use ghost_grid.Config.{Direction, long, short, Mode}
use ghost_grid.Positions.Models.{
  PositionState, ExitReason, open_unrealized, open_trailing, closed_profit, closed_loss,
  closed_nuclear, nuclear, trail_hit, hard_stop, weakness_confirmed, cvd_divergence, Snapshot,
}
use ghost_grid.Positions.Cvd.{check_cvd_exit}
use ghost_grid.Positions.Trail.{TrailManager, arm, update, is_hit, is_armed}
use ghost_grid.Positions.Ratchet.{update_keeps, Holds, update-Holds, AtLeast-refl}
use ghost_grid.Positions.Machine.{
  Machine, Outcome, hold, raised, exits, Event, trail_armed, position_closed, calc_pnl, stop_hit,
  hard_stop_hit, close, force_close, on_tick, layers, by_state, unrealized_layer, trailing_layers,
  new,
}

module _ ⦃F : Floats⦄ where
  -- The price is at the hard stop or beyond it.
  abbrev pub Reached : Direction → Float → Float → Type 0
  Reached long price stop = (price ≤? stop) ≡ true
  Reached short price stop = (stop ≤? price) ≡ true

  -- The price is strictly on the good side of the hard stop.
  abbrev pub Clear : Direction → Float → Float → Type 0
  Clear long price stop = (stop <? price) ≡ true
  Clear short price stop = (price <? stop) ≡ true

  stop-Reached :
      (d : Direction) (price stop : Float)
      → ((stop_hit d price stop ≡ true) ↔ Reached d price stop)
        × (stop_hit d price stop ≡ false → Clear d price stop)
  stop-Reached long price stop = ((λ h. h, λ h. h), λ h. ap not h)
  stop-Reached short price stop = ((λ h. h, λ h. h), λ h. ap not h)

  -- The order of the first two layers, by their tests.
  on_tick-tests :
      (m : Machine) (price pnl : Float) (snap : Snapshot) (mode : Option Mode)
      → calc_pnl m price ≡ some pnl
      → let outcome = (on_tick m price snap mode).1 in
        ((outcome ≡ exits cvd_divergence) ↔ (check_cvd_exit snap m.direction ≡ some true))
        × ((outcome ≡ exits hard_stop)
            ↔ ((check_cvd_exit snap m.direction ≡ some false) × (hard_stop_hit m price ≡ true)))
        × (outcome ≡ hold
            → (check_cvd_exit snap m.direction ≡ some false) × (hard_stop_hit m price ≡ false))
  unfolding on_tick layers by_state unrealized_layer trailing_layers close calc_pnl hard_stop_hit
  on_tick-tests m price pnl snap mode e = ground arith

  -- Where the profit of a tick can be computed, the tick exits for a divergence exactly where there
  -- is one, and by the hard stop exactly where there is none and the price is at the stop or beyond
  -- it; a tick that holds the position saw no divergence, and a price strictly on the good side of
  -- the stop.
  pub on_tick-stops :
      (m : Machine) (price pnl : Float) (snap : Snapshot) (mode : Option Mode)
      → calc_pnl m price ≡ some pnl
      → let outcome = (on_tick m price snap mode).1 in
        ((outcome ≡ exits cvd_divergence) ↔ (check_cvd_exit snap m.direction ≡ some true))
        × ((outcome ≡ exits hard_stop) ↔ (
            (check_cvd_exit snap m.direction ≡ some false)
            × Reached m.direction price m.hard_stop_price))
        × (outcome ≡ hold
            → (check_cvd_exit snap m.direction ≡ some false)
              × Clear m.direction price m.hard_stop_price)
  unfolding hard_stop_hit
  on_tick-stops m price pnl snap mode e =
      let (cvd, stopped, held) = on_tick-tests m price pnl snap mode e in
      let (reached, clear) = stop-Reached m.direction price m.hard_stop_price in
      (
        cvd,
        (
          (λ h. ((stopped.0 h).0, reached.0 (stopped.0 h).1)),
          (λ h. stopped.1 (h.0, reached.1 h.1)),
        ),
        λ h. ((held h).0, clear (held h).1),
      )

  -- The profit or loss was computed, and the state is the one of a profit where it is positive, and otherwise
  -- that of a nuclear close or of a loss, by the reason.
  abbrev pub ClosesTo : ExitReason → PositionState → Option Float → Type 0
  ClosesTo r s none = ⊥
  ClosesTo r s (some pnl) =
      ((zero_f <? pnl) ≡ true → s ≡ closed_profit)
      × ((pnl ≤? zero_f) ≡ true → r ≡ nuclear → s ≡ closed_nuclear)
      × ((pnl ≤? zero_f) ≡ true → r ≢ nuclear → s ≡ closed_loss)

  -- What a call may do to the state, by its outcome.
  abbrev pub Moves : Machine → Float → Machine × Outcome → Type 0
  Moves m price (m', hold) =
      (m'.state ≡ m.state) ⊎ ((m.state ≡ open_unrealized) × (m'.state ≡ open_trailing))
  Moves m price (m', raised) = m'.state ≡ m.state
  Moves m price (m', exits r) = ClosesTo r m'.state (calc_pnl m price)

  close-Moves :
      (m : Machine) (reason : ExitReason) (price : Float) → Moves m price (close m reason price)
  unfolding close
  close-Moves m reason price = ground arith

  by_state-Moves :
      (m : Machine) (price pnl : Float) (snap : Snapshot) (mode : Option Mode)
      → Moves m price (by_state m.state m pnl price snap mode)
  unfolding by_state unrealized_layer trailing_layers close calc_pnl
  by_state-Moves m price pnl snap mode = ground arith

  layers-Moves :
      (m : Machine) (price pnl : Float) (snap : Snapshot) (mode : Option Mode)
      → Moves m price (layers m pnl price snap mode)
  unfolding layers
  layers-Moves m price pnl snap mode = ground (
    arith,
    by_state-Moves m price pnl snap mode,
    close-Moves m cvd_divergence price,
    close-Moves m hard_stop price,
  )

  tick-Moves :
      (m : Machine) (price : Float) (snap : Snapshot) (mode : Option Mode)
      → Moves m price (on_tick m price snap mode)
  unfolding on_tick
  tick-Moves m price snap mode = elim (Option-cases (calc_pnl m price)) [
    | inl bad ↦ rw (bad, on_tick) refl
    | inr (pnl, good) ↦
        rw (good, on_tick)
          (unfold calc_pnl in
            layers-Moves (record m { max_profit = fmax m.max_profit pnl }) price pnl snap mode)
  ]

  -- Where the calls on the weight updater return: a tick or a forced close that raises leaves the
  -- state alone; a tick that holds can only move from the unrealised to the trailing state; and a
  -- tick or a forced close that exits has a profit that can be computed, and writes the state of a
  -- profit where it is positive, and otherwise that of a nuclear close for that reason and of a loss
  -- for any other.
  pub on_tick-Moves :
      (m : Machine) (price : Float) (snap : Snapshot) (mode : Option Mode) (reason : ExitReason)
      → Moves m price (on_tick m price snap mode) × Moves m price (force_close m reason price)
  unfolding force_close
  on_tick-Moves m price snap mode reason =
      (tick-Moves m price snap mode, close-Moves m reason price)

  -- Where the profit of a tick can be computed, the tick does not lower the highest profit, and
  -- leaves it at least the computed one.
  pub on_tick-max_profit :
      (m : Machine) (price pnl : Float) (snap : Snapshot) (mode : Option Mode)
      → calc_pnl m price ≡ some pnl
      → let m' = (on_tick m price snap mode).0 in
        ((m.max_profit ≤? m'.max_profit) ≡ true) × ((pnl ≤? m'.max_profit) ≡ true)
  unfolding on_tick layers by_state unrealized_layer trailing_layers close
  on_tick-max_profit m price pnl snap mode e =
      ground (
        arith,
        le-fmax_left m.max_profit pnl,
        le-fmax_right m.max_profit pnl,
        lte_refl m.max_profit,
      )

  abbrev pub count_closes : List Event → ℕ
  count_closes [] = 0
  count_closes (trail_armed _ _ ∷ es) = count_closes es
  count_closes (position_closed _ _ _ ∷ es) = suc (count_closes es)

  -- The trail is armed in the trailing state only, for the machine's own position, and every logged
  -- close has passed one outcome to each of the three strategies.
  pub record IsValid (m : Machine) : Type 0 where
    pub trailing_armed : m.state ≡ open_trailing → is_armed m.trail ≡ true
    pub unrealized_bare : m.state ≡ open_unrealized → is_armed m.trail ≡ false
    pub same_direction : m.trail.direction ≡ m.direction
    pub same_symbol : m.trail.symbol ≡ m.symbol
    pub reported : length m.weight_updates ≡ 3 * count_closes m.events

  count_closes-append :
      (xs ys : List Event) → count_closes (xs ++ ys) ≡ count_closes xs + count_closes ys
  count_closes-append [] ys = omega arith
  count_closes-append (trail_armed _ _ ∷ xs) ys = count_closes-append xs ys
  count_closes-append (position_closed _ _ _ ∷ xs) ys = omega (arith, count_closes-append xs ys)

  pub new-IsValid :
      (position_id : ℕ) (symbol : String) (d : Direction) (entry stop lots : Float) (ts : ℕ)
      (pv ps : Float)
      → IsValid (new position_id symbol d entry stop lots ts pv ps)
  unfolding new
  new-IsValid position_id symbol d entry stop lots ts pv ps = ground arith

  pub close-IsValid :
      (m : Machine) (reason : ExitReason) (price : Float)
      → IsValid m
      → IsValid (close m reason price).0
  unfolding close
  close-IsValid m reason price v = grind (arith, length-append, count_closes-append)

  unrealized_layer-IsValid :
      (m : Machine) (price pnl : Float) (snap : Snapshot) (mode : Option Mode)
      → m.state ≡ open_unrealized
      → IsValid m
      → IsValid (unrealized_layer m pnl price snap mode).0
  unfolding unrealized_layer arm
  unrealized_layer-IsValid m price pnl snap mode e v = grind (arith, count_closes-append)

  trailing_layers-IsValid :
      (m : Machine) (price pnl : Float) (snap : Snapshot) (mode : Option Mode)
      → m.state ≡ open_trailing
      → IsValid m
      → IsValid (trailing_layers m price snap mode).0
  unfolding trailing_layers
  trailing_layers-IsValid m price pnl snap mode e v =
      elim (Option-cases (update m.trail price snap.atr_1m mode)) [
        | inl bad ↦ rw (bad, trailing_layers) v
        | inr ((t, moved), good) ↦
            let kept = update_keeps m.trail t price snap.atr_1m mode good in
            let m' : Machine = record m { trail = t } in
            let v' : IsValid m' = ground (arith, kept) in
            rw (good, trailing_layers)
              (ground (
                arith,
                close-IsValid m' trail_hit price v',
                close-IsValid m' weakness_confirmed price v',
              ))
      ]

  layers-IsValid :
      (m : Machine) (price pnl : Float) (snap : Snapshot) (mode : Option Mode)
      → IsValid m
      → IsValid (layers m pnl price snap mode).0
  unfolding layers by_state
  layers-IsValid m price pnl snap mode v = ground (
    arith,
    unrealized_layer-IsValid m price pnl snap mode,
    trailing_layers-IsValid m price pnl snap mode,
    close-IsValid m cvd_divergence price,
    close-IsValid m hard_stop price,
  )

  -- A tick keeps the invariant of a machine: its trail is armed in the trailing state and not in the
  -- unrealised one, it belongs to the machine's position, and each logged close has reported three
  -- outcomes.
  pub on_tick-IsValid :
      (m : Machine) (price : Float) (snap : Snapshot) (mode : Option Mode)
      → IsValid m
      → IsValid (on_tick m price snap mode).0
  unfolding on_tick
  on_tick-IsValid m price snap mode v = elim (Option-cases (calc_pnl m price)) [
    | inl bad ↦ rw (bad, on_tick) v
    | inr (pnl, good) ↦
        rw (good, on_tick)
          (layers-IsValid (record m { max_profit = fmax m.max_profit pnl }) price pnl snap mode
            (ground arith))
  ]

  -- A position in the state of a profitable close that is ticked again, at no profit, without a CVD
  -- divergence and with its hard stop reached, exits by the hard stop, moves to the state of a loss
  -- and logs one more close.
  pub on_tick-recloses :
      (m : Machine) (price pnl : Float) (snap : Snapshot) (mode : Option Mode)
      → m.state ≡ closed_profit
      → calc_pnl m price ≡ some pnl
      → (zero_f <? pnl) ≡ false
      → check_cvd_exit snap m.direction ≡ some false
      → hard_stop_hit m price ≡ true
      → let (m', outcome) = on_tick m price snap mode in
        (outcome ≡ exits hard_stop)
        × (m'.state ≡ closed_loss)
        × (count_closes m'.events ≡ suc (count_closes m.events))
  unfolding on_tick layers close calc_pnl hard_stop_hit
  on_tick-recloses m price pnl snap mode closed e loss quiet hit =
      grind (arith, count_closes-append)

  hold_in_trailing :
      (m : Machine) (t : TrailManager) (moved : Option Float) (price : Float) (snap : Snapshot)
      (mode : Option Mode)
      → m.state ≡ open_trailing
      → (on_tick m price snap mode).1 ≡ hold
      → update m.trail price snap.atr_1m mode ≡ some (t, moved)
      → ((on_tick m price snap mode).0.trail ≡ t) × (is_hit t price ≡ false)
  unfolding on_tick layers by_state trailing_layers close
  hold_in_trailing m t moved price snap mode trailing h good = ground arith

  update_ran :
      (m : Machine) (price : Float) (snap : Snapshot) (mode : Option Mode)
      → m.state ≡ open_trailing
      → (on_tick m price snap mode).1 ≡ hold
      → update m.trail price snap.atr_1m mode ≢ none
  unfolding on_tick layers by_state trailing_layers close
  update_ran m price snap mode trailing h = ground arith

  -- A tick that holds a position in the trailing state, whose trail has a stop, leaves a trail of
  -- the same direction with a stop at least as favourable as before, which the price has not
  -- crossed.
  pub on_tick-ratchet :
      (m : Machine) (price old : Float) (snap : Snapshot) (mode : Option Mode)
      → m.state ≡ open_trailing
      → m.trail.trail_stop ≡ some old
      → (on_tick m price snap mode).1 ≡ hold
      → Holds m.trail.direction old (on_tick m price snap mode).0.trail
        × (is_hit (on_tick m price snap mode).0.trail price ≡ false)
  on_tick-ratchet m price old snap mode trailing armed h =
      elim (Option-cases (update m.trail price snap.atr_1m mode)) [
        | inl bad ↦ absurd (update_ran m price snap mode trailing h bad)
        | inr ((t, moved), good) ↦
            let (same, inside) = hold_in_trailing m t moved price snap mode trailing h good in
            let start : Holds m.trail.direction old m.trail =
              (old, armed, refl, AtLeast-refl m.trail.direction old) in
            rw same (
              update-Holds m.trail.direction old price snap.atr_1m mode m.trail t moved start good,
              inside,
            )
      ]
