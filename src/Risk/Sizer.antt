-- ===== src/Risk/Sizer.antt =====
-- risk/sizer.py, with the limits of risk/constants.py. none is an exception: the KeyError of an unknown
-- symbol, or a division by zero.
use ghost_grid.Common.{
  ◌>>=◌, String, ◌≡◌, inl, inr, true, Option, none, some, arith, Bool-cases, if◌then◌else◌, Floats,
  Float, ◌≤?◌, ◌=?◌, lit, zero_f, add, sub, mul, div?, abs, fmax, fmin, le-fmax_left, fmin-le_right,
  lte_refl,
}
use ghost_grid.Config.{Direction, long, short, Instrument, get_instrument}

module _ ⦃F : Floats⦄ where
  abbrev pub max_risk_per_trade : Float
  max_risk_per_trade = lit 1 2

  abbrev pub min_lot_size : Float
  min_lot_size = lit 1 2

  abbrev pub max_lot_size : Float
  max_lot_size = lit 100 1

  floor_to_step : Float → Float → Option Float
  floor_to_step value step =
      if step ≤? zero_f then some value else (do q ← div? value step; some (mul (F.floor q) step))

  -- `max(MIN_LOT_SIZE, min(floored, MAX_LOT_SIZE))`
  abbrev pub clamp_lot : Float → Float
  clamp_lot floored = fmax min_lot_size (fmin floored max_lot_size)

  -- The lots for a pip distance that is not zero.
  lots_for : Float → Float → Instrument → Option Float
  unfolding floor_to_step
  lots_for risk_capital pip_distance instr = do
    raw_lots ← div? risk_capital (mul pip_distance instr.pip_value)
    floored ← floor_to_step raw_lots instr.lot_step
    some (clamp_lot floored)

  unfoldable pub calculate_lot_size : String → Float → Float → Float → Option Float
  unfolding lots_for
  calculate_lot_size symbol equity entry stop_loss = do
    instr ← get_instrument symbol
    let risk_capital = mul equity max_risk_per_trade
    pip_distance ← div? (abs (sub entry stop_loss)) instr.pip_size
    if pip_distance =? zero_f then some min_lot_size else lots_for risk_capital pip_distance instr

  unfoldable pub compute_stop_loss : Float → Direction → Float → Float → Float
  compute_stop_loss entry long atr_5m multiplier = sub entry (mul atr_5m multiplier)
  compute_stop_loss entry short atr_5m multiplier = add entry (mul atr_5m multiplier)

  abbrev pub InBounds : Option Float → Type 0
  InBounds none = Unit
  InBounds (some lots) = ((min_lot_size ≤? lots) ≡ true) × ((lots ≤? max_lot_size) ≡ true)

  clamp_lot-InBounds :
      (x : Float) → (min_lot_size ≤? max_lot_size) ≡ true → InBounds (some (clamp_lot x))
  clamp_lot-InBounds x ordered = (
    le-fmax_left min_lot_size (fmin x max_lot_size),
    ground (arith, fmin-le_right x max_lot_size),
  )

  >>=-InBounds :
      {A : Type 0} (o : Option A) (f : A → Option Float)
      → ((a : A) → InBounds (f a))
      → InBounds (o >>= f)
  >>=-InBounds none f h = tt
  >>=-InBounds (some a) f h = h a

  lots_for-InBounds :
      (risk_capital pip_distance : Float) (instr : Instrument)
      → (min_lot_size ≤? max_lot_size) ≡ true
      → InBounds (lots_for risk_capital pip_distance instr)
  unfolding lots_for
  lots_for-InBounds risk_capital pip_distance instr ordered =
      >>=-InBounds (div? risk_capital (mul pip_distance instr.pip_value)) _ λ raw_lots.
        >>=-InBounds (floor_to_step raw_lots instr.lot_step) _
          λ floored. clamp_lot-InBounds floored ordered

  sized-InBounds :
      (risk_capital pip_distance : Float) (instr : Instrument)
      → (min_lot_size ≤? max_lot_size) ≡ true
      → InBounds (
          if pip_distance =? zero_f
          then some min_lot_size
          else lots_for risk_capital pip_distance instr)
  sized-InBounds risk_capital pip_distance instr ordered =
      elim (Bool-cases (pip_distance =? zero_f)) [
        | inl degenerate ↦ rw degenerate (lte_refl min_lot_size, ordered)
        | inr regular ↦ rw regular (lots_for-InBounds risk_capital pip_distance instr ordered)
      ]

  -- A computed lot size lies between the smallest and the largest lot, if the floats order these two
  -- limits.
  pub calculate_lot_size-InBounds :
      (symbol : String) (equity entry stop_loss : Float)
      → (min_lot_size ≤? max_lot_size) ≡ true
      → InBounds (calculate_lot_size symbol equity entry stop_loss)
  unfolding calculate_lot_size
  calculate_lot_size-InBounds symbol equity entry stop_loss ordered =
      >>=-InBounds (get_instrument symbol) _ λ instr.
        >>=-InBounds (div? (abs (sub entry stop_loss)) instr.pip_size) _
          λ pip_distance. sized-InBounds (mul equity max_risk_per_trade) pip_distance instr ordered
