-- ===== src/Positions/Trail.antt =====
-- positions/trail_manager.py. none is an exception: the KeyError of an unknown symbol, or a division
-- by a pip value of zero.
use ghost_grid.Common.{
  ◌>>=◌, String, Bool, true, false, Option, none, some, if◌then◌else◌, Floats, Float, ◌≤?◌, ◌<?◌,
  lit, add, sub, mul, div?, fmax,
}
use ghost_grid.Config.{Direction, long, short, Mode, get_instrument, get_trail_floor_for_mode}

module _ ⦃F : Floats⦄ where
  unfoldable pub compute_trail_distance : String → Float → Option Mode → Option Float
  compute_trail_distance symbol atr_1m mode = do
    instr ← get_instrument symbol
    let atr_distance = mul atr_1m (lit 5 1)
    floor_pips ← div? (get_trail_floor_for_mode mode) instr.pip_value
    let floor_price_dist = mul floor_pips instr.pip_size
    some (fmax atr_distance floor_price_dist)

  pub record TrailManager : Type 0 where
    pub direction : Direction
    pub symbol : String
    pub trail_stop : Option Float

  abbrev pub is_armed : TrailManager → Bool
  is_armed t = elim t.trail_stop [ none ↦ false | some _ ↦ true ]

  -- `price - dist` for a long position, `price + dist` for a short one.
  abbrev pub proposed : Direction → Float → Float → Float
  proposed long price dist = sub price dist
  proposed short price dist = add price dist

  unfoldable pub arm : TrailManager → Float → Float → Option Mode → Option (TrailManager × Float)
  arm t price atr_1m mode = do
    dist ← compute_trail_distance t.symbol atr_1m mode
    let stop = proposed t.direction price dist
    some (record t { trail_stop = some stop }, stop)

  -- Whether the second stop is on the favourable side of the first.
  abbrev pub improves : Direction → Float → Float → Bool
  improves long old new = old <? new
  improves short old new = new <? old

  unfoldable pub update :
      TrailManager → Float → Float → Option Mode → Option (TrailManager × Option Float)
  update t price atr_1m mode = elim t.trail_stop [
    | none ↦ some (t, none)
    | some old ↦ compute_trail_distance t.symbol atr_1m mode >>= λ dist.
        let stop = proposed t.direction price dist in
        if improves t.direction old stop
        then some (record t { trail_stop = some stop }, some stop)
        else some (t, none)
  ]

  -- Whether the price is at the stop or beyond it.
  abbrev pub crossed : Direction → Float → Float → Bool
  crossed long price stop = price ≤? stop
  crossed short price stop = stop ≤? price

  unfoldable pub is_hit : TrailManager → Float → Bool
  is_hit t price = elim t.trail_stop [ none ↦ false | some stop ↦ crossed t.direction price stop ]
