-- ===== src/Positions/Engine.antt =====
-- positions/exit_engine.py: the exit layers without the state machine, and what they have in common with it.
use ghost_grid.Common.{
  ℕ, ◌≡◌, ◌∙◌, refl, ap, Bool, true, false, not, ◌&&◌, Option, none, some, List, if◌then◌else◌,
  arith, Floats, Float, ◌≤?◌, fmax,
}
use ghost_grid.Config.{Direction, Mode, profit_trigger_usd}
use ghost_grid.Positions.Models.{
  Bar, Snapshot, ExitReason, open_unrealized, open_trailing, cvd_divergence, hard_stop, trail_hit,
  weakness_confirmed,
}
use ghost_grid.Positions.Trail.{TrailManager, is_armed, is_hit, update}
use ghost_grid.Positions.Weakness.{detect_weakness}
use ghost_grid.Positions.Cvd.{check_cvd_exit}
use ghost_grid.Positions.Machine.{
  Machine, Outcome, raised, exits, calc_pnl, stop_hit, hard_stop_hit, close, unrealized_layer,
  trailing_layers, by_state, layers, on_tick,
}

module _ ⦃F : Floats⦄ where
  pub record ExitEvaluation : Type 0 where
    pub should_exit : Bool
    pub reason : Option ExitReason
    pub layer : Option ℕ

  abbrev pub exit_at : ExitReason → ℕ → ExitEvaluation
  exit_at reason layer = record { should_exit = true; reason = some reason; layer = some layer }

  abbrev pub stay_at : Option ℕ → ExitEvaluation
  stay_at layer = record { should_exit = false; reason = none; layer = layer }

  -- The layers after the one of the CVD.
  unfoldable pub price_layers :
      Snapshot → Direction → Float → Float → TrailManager → List Bar → ExitEvaluation
  price_layers snap direction hard_stop_price current_pnl trail m1_bars =
      if stop_hit direction snap.mid hard_stop_price
      then exit_at hard_stop 1
      else if (profit_trigger_usd ≤? current_pnl) && not (is_armed trail)
      then stay_at (some 2)
      else if is_armed trail && is_hit trail snap.mid
      then exit_at trail_hit 3
      else if is_armed trail && (detect_weakness m1_bars direction).all_three
      then exit_at weakness_confirmed 3
      else stay_at none

  -- `ExitEngine.evaluate`; none is an exception of check_cvd_exit.
  unfoldable pub evaluate_exit :
      Snapshot → Direction → Float → Float → TrailManager → List Bar → Option ExitEvaluation
  evaluate_exit snap direction hard_stop_price current_pnl trail m1_bars =
      elim (check_cvd_exit snap direction) [
        | none ↦ none
        | some true ↦ some (exit_at cvd_divergence 4)
        | some false ↦ some (price_layers snap direction hard_stop_price current_pnl trail m1_bars)
      ]

  abbrev pub reason_of : Option ExitEvaluation → Option ExitReason
  reason_of none = none
  reason_of (some e) = if e.should_exit then e.reason else none

  abbrev pub reason_of_outcome : Outcome → Option ExitReason
  reason_of_outcome (exits reason) = some reason
  reason_of_outcome _ = none

  close-reason :
      (m : Machine) (reason : ExitReason) (price pnl : Float)
      → calc_pnl m price ≡ some pnl
      → reason_of_outcome (close m reason price).1 ≡ some reason
  unfolding close
  close-reason m reason price pnl e = rw (e, close) refl

  -- The engine on a machine's data, with a trail.
  abbrev pub engine_on : Machine → Snapshot → Float → TrailManager → Option ExitReason
  engine_on m snap pnl trail =
      reason_of (evaluate_exit snap m.direction m.hard_stop_price pnl trail snap.m1)

  layers-unrealized :
      (m : Machine) (snap : Snapshot) (mode : Option Mode) (pnl : Float)
      → calc_pnl m snap.mid ≡ some pnl
      → m.state ≡ open_unrealized
      → is_armed m.trail ≡ false
      → reason_of_outcome (layers m pnl snap.mid snap mode).1 ≡ engine_on m snap pnl m.trail
  unfolding layers by_state unrealized_layer hard_stop_hit evaluate_exit price_layers
  layers-unrealized m snap mode pnl e state unarmed = ground (
    arith,
    state,
    unarmed,
    close-reason m cvd_divergence snap.mid pnl e,
    close-reason m hard_stop snap.mid pnl e,
  )

  layers-trailing :
      (m : Machine) (snap : Snapshot) (mode : Option Mode) (pnl : Float) (trail : TrailManager)
      (stop : Option Float)
      → calc_pnl m snap.mid ≡ some pnl
      → calc_pnl (record m { trail = trail }) snap.mid ≡ some pnl
      → m.state ≡ open_trailing
      → update m.trail snap.mid snap.atr_1m mode ≡ some (trail, stop)
      → is_armed trail ≡ true
      → reason_of_outcome (layers m pnl snap.mid snap mode).1 ≡ engine_on m snap pnl trail
  unfolding layers by_state trailing_layers hard_stop_hit evaluate_exit price_layers
  layers-trailing m snap mode pnl trail stop e e' state moved armed = ground (
    arith,
    state,
    moved,
    armed,
    close-reason m cvd_divergence snap.mid pnl e,
    close-reason m hard_stop snap.mid pnl e,
    close-reason (record m { trail = trail }) trail_hit snap.mid pnl e',
    close-reason (record m { trail = trail }) weakness_confirmed snap.mid pnl e',
  )

  -- Where the profit of a position is known, in OPEN_UNREALIZED with no trail armed the exit engine
  -- on the position's trail, and in OPEN_TRAILING the engine on the trail that the tick moves, where
  -- that is armed, finds the reason for which the state machine exits, and none where it does not
  -- exit.
  pub evaluate_exit-on_tick :
      (m : Machine) (snap : Snapshot) (mode : Option Mode) (pnl : Float)
      → calc_pnl m snap.mid ≡ some pnl
      → (m.state ≡ open_unrealized
          → is_armed m.trail ≡ false
          → reason_of_outcome (on_tick m snap.mid snap mode).1 ≡ engine_on m snap pnl m.trail)
        × ((trail : TrailManager) (stop : Option Float)
            → m.state ≡ open_trailing
            → update m.trail snap.mid snap.atr_1m mode ≡ some (trail, stop)
            → is_armed trail ≡ true
            → reason_of_outcome (on_tick m snap.mid snap mode).1 ≡ engine_on m snap pnl trail)
  unfolding on_tick calc_pnl
  evaluate_exit-on_tick m snap mode pnl e = (
    λ state unarmed. tick ∙ layers-unrealized seen snap mode pnl e state unarmed,
    λ trail stop state moved armed.
        tick ∙ layers-trailing seen snap mode pnl trail stop e e state moved armed,
  )
    where
      seen : Machine
      seen = record m { max_profit = fmax m.max_profit pnl }

      tick :
          reason_of_outcome (on_tick m snap.mid snap mode).1
          ≡ reason_of_outcome (layers seen pnl snap.mid snap mode).1
      tick =
          ap
            (λ (o : Option Float).
              reason_of_outcome
                (elim o as (λ _. Machine × Outcome) [
                  | none ↦ (m, raised)
                  | some p ↦
                      layers (record m { max_profit = fmax m.max_profit p }) p snap.mid snap mode
                ]).1)
            e
