-- ===== src/Main/Reward.antt =====
-- The ratio of reward to risk of the orders that `on_snapshot` of main.py proposes, in decimals of six places.
use Prim.Native.Nat.{◌/◌}
use ghost_grid.Common.{
  ℕ, zero, suc, ◌*◌, ◌≤◌, ◌<◌, ◌≡◌, ◌≢◌, false, some, arith, if◌then◌else◌, lit, sub, mul, div, abs,
  ◌≤?◌, ◌<?◌,
}
use ghost_grid.Common.Fixed.{fixed, ℤ, pos, negsuc}
use ghost_grid.Config.{Direction, long, short}
use ghost_grid.Scoring.Gate.{ConfluenceScore}
use ghost_grid.Risk.Sizer.{compute_stop_loss}
use ghost_grid.Risk.Validator.{rr_ratio, pip_risk}
use ghost_grid.Main.Pipeline.{
  Bot, LiveSnapshot, order_raised, OrderArguments, proposal_of, on_snapshot, entry_of,
}
use ghost_grid.Main.Guarded.{on_snapshot-IsJustified}

quotient-le : (n m : ℕ) → n ≤ m → 0 < m → n * 1000000 / m ≤ 1000000
quotient-le n m h p = grind arith

stop-distance :
    (entry atr : ℤ) (d : Direction)
    → abs (sub entry (compute_stop_loss entry d atr (lit 15 1))) ≡ abs (mul atr (lit 15 1))
unfolding compute_stop_loss
stop-distance entry atr long = ground arith
stop-distance entry atr short = ground arith

ratio-low :
    (atr : ℤ)
    → let risk = abs (mul atr (lit 15 1)) in
      (lit 15 1 ≤? (if lit 0 0 <? risk then div atr risk else lit 0 0)) ≡ false
ratio-low (pos zero) = ground arith
ratio-low (pos (suc n)) =
    ground (arith, quotient-le (suc n) (suc n * 1500000 / 1000000) (omega arith) (omega arith))
ratio-low (negsuc n) = ground arith

rr_ratio-low :
    (score : ConfluenceScore) (snap : LiveSnapshot)
    → (lit 15 1 ≤? rr_ratio (proposal_of score snap)) ≡ false
unfolding rr_ratio pip_risk proposal_of
rr_ratio-low score snap =
    rw (stop-distance (entry_of score.direction snap) snap.atr_5m score.direction)
      (ratio-low snap.atr_5m)

-- In decimals of six places, whatever the bot, the snapshot and the score are, the pipeline does not
-- come to the construction of an order.
pub on_snapshot-never :
    (bot : Bot) (snap : LiveSnapshot) (score : ConfluenceScore) (args : OrderArguments)
    → (on_snapshot (some score) bot snap).1 ≢ order_raised args
on_snapshot-never bot snap score args e =
    cc ((on_snapshot-IsJustified bot snap score args e).1.passes.reward, rr_ratio-low score snap)
