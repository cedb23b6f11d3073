-- ===== src/Positions/Models.antt =====
-- positions/models.py, and the part of a market snapshot that the positions package reads.
use ghost_grid.Common.{String, List, Floats, Float}

pub data PositionState : Type 0 where
  idle opening open_unrealized open_layer1 open_trailing : PositionState
  closed_profit closed_loss closed_nuclear : PositionState

pub data ExitReason : Type 0 where
  trail_hit hard_stop weakness_confirmed cvd_divergence : ExitReason
  nuclear manual_telegram offline_stop : ExitReason

module _ ⦃F : Floats⦄ where
  pub record Bar : Type 0 where
    pub open_price : Float
    pub high : Float
    pub low : Float
    pub close : Float
    pub volume : Float

  -- The attributes that positions/ reads of a snapshot. Bars and CVD values are oldest first.
  pub record Snapshot : Type 0 where
    pub symbol : String
    pub mid : Float
    pub m1 : List Bar
    pub m5 : List Bar
    pub cvd : List Float
    pub atr_1m : Float
