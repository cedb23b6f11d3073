-- ===== src/Positions/Cvd.antt =====
-- positions/cvd_exit.py. none is the ValueError that `max` and `min` of an empty slice raise.
use ghost_grid.Common.{
  ◌>>=◌, Bool, true, false, not, ◌&&◌, ◌||◌, Option, some, List, map, ltb, length, last_n,
  but_last_n, get_last?, if◌then◌else◌, Floats, Float, ◌<?◌, max?, min?,
}
use ghost_grid.Config.{Direction, long, short}
use ghost_grid.Positions.Models.{Bar, Snapshot}

module _ ⦃F : Floats⦄ where
  -- `xs[-1] > high or high > max(xs[:-3])`, for `high = max(xs[-3:])`.
  is_new_high : List Float → Option Bool
  is_new_high xs = do
    high ← max? (last_n 3 xs)
    latest ← get_last? xs
    if high <? latest
        then some true
        else (do before ← max? (but_last_n 3 xs); some (before <? high))

  -- `xs[-1] < low or low < min(xs[:-3])`, for `low = min(xs[-3:])`.
  is_new_low : List Float → Option Bool
  is_new_low xs = do
    low ← min? (last_n 3 xs)
    latest ← get_last? xs
    if latest <? low then some true else (do before ← min? (but_last_n 3 xs); some (low <? before))

  divergence : Direction → List Float → List Float → Option Bool
  divergence long closes cvd_vals = do
    price_is_new_high ← is_new_high closes
    cvd_is_new_high ← is_new_high cvd_vals
    some (price_is_new_high && not cvd_is_new_high)
  divergence short closes cvd_vals = do
    price_is_new_low ← is_new_low closes
    cvd_is_new_low ← is_new_low cvd_vals
    some (price_is_new_low && not cvd_is_new_low)

  unfoldable pub check_cvd_exit : Snapshot → Direction → Option Bool
  unfolding is_new_high is_new_low divergence
  check_cvd_exit snap direction =
      let closes = map (λ (b : Bar). b.close) (last_n 10 snap.m5) in
      let cvd_vals = last_n 10 snap.cvd in
      if ltb (length snap.cvd) 10
      then some false
      else if ltb (length closes) 3 || ltb (length cvd_vals) 3
      then some false
      else divergence direction closes cvd_vals
