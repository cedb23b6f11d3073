-- ===== src/Config.antt =====
-- config/instruments.py, config/constants.py and the mode thresholds of core/mode_selector.py. The
-- words that the source keeps in strings (a direction, a mode) are data; symbols stay strings.
pub mod Sessions
use ghost_grid.Common.{
  ℕ, String, Option, some, List, [], ◌∷◌, Dict, lookup, string_eq, Floats, Float, lit, mul,
}

pub data Direction : Type 0 where
  long short : Direction

pub data Session : Type 0 where
  asia london ny overlap : Session

-- The trading modes that the program compares with; any other string is kept as it is.
pub data Mode : Type 0 where
  scalp_normal scalp_reduced scalp_burst daily_target aggressive_compounding : Mode
  other_mode : String → Mode

-- The regime names of config/constants.py; any other string is kept as it is.
pub data Regime : Type 0 where
  trend chop breakout reversal : Regime
  other_regime : String → Regime

module _ ⦃F : Floats⦄ where
  pub record Instrument : Type 0 where
    pub symbol : String
    pub tier : ℕ
    pub pip_size : Float
    pub pip_value : Float
    pub min_lot : Float
    pub lot_step : Float
    pub max_spread : Float
    pub sessions : List Session

  pub spread_in_price : Instrument → Float
  spread_in_price i = mul i.max_spread i.pip_size

  unfoldable pub instruments : Dict String Instrument
  instruments =
      (
        "EURUSD",
        record {
          symbol = "EURUSD";
          tier = 1;
          pip_size = lit 1 4;
          pip_value = lit 10 0;
          min_lot = lit 1 2;
          lot_step = lit 1 2;
          max_spread = lit 2 0;
          sessions = london ∷ ny ∷ overlap ∷ [];
        },
      )
      ∷ (
        "GBPUSD",
        record {
          symbol = "GBPUSD";
          tier = 1;
          pip_size = lit 1 4;
          pip_value = lit 10 0;
          min_lot = lit 1 2;
          lot_step = lit 1 2;
          max_spread = lit 25 1;
          sessions = london ∷ ny ∷ overlap ∷ [];
        },
      )
      ∷ (
        "USDJPY",
        record {
          symbol = "USDJPY";
          tier = 1;
          pip_size = lit 1 2;
          pip_value = lit 909 2;
          min_lot = lit 1 2;
          lot_step = lit 1 2;
          max_spread = lit 2 0;
          sessions = asia ∷ london ∷ ny ∷ overlap ∷ [];
        },
      )
      ∷ (
        "XAUUSD",
        record {
          symbol = "XAUUSD";
          tier = 1;
          pip_size = lit 1 2;
          pip_value = lit 1 0;
          min_lot = lit 1 2;
          lot_step = lit 1 2;
          max_spread = lit 30 0;
          sessions = london ∷ ny ∷ overlap ∷ [];
        },
      )
      ∷ (
        "GBPJPY",
        record {
          symbol = "GBPJPY";
          tier = 2;
          pip_size = lit 1 2;
          pip_value = lit 909 2;
          min_lot = lit 1 2;
          lot_step = lit 1 2;
          max_spread = lit 4 0;
          sessions = london ∷ overlap ∷ [];
        },
      )
      ∷ (
        "EURJPY",
        record {
          symbol = "EURJPY";
          tier = 2;
          pip_size = lit 1 2;
          pip_value = lit 909 2;
          min_lot = lit 1 2;
          lot_step = lit 1 2;
          max_spread = lit 3 0;
          sessions = london ∷ overlap ∷ [];
        },
      )
      ∷ (
        "AUDUSD",
        record {
          symbol = "AUDUSD";
          tier = 2;
          pip_size = lit 1 4;
          pip_value = lit 10 0;
          min_lot = lit 1 2;
          lot_step = lit 1 2;
          max_spread = lit 25 1;
          sessions = asia ∷ london ∷ [];
        },
      )
      ∷ (
        "USDCHF",
        record {
          symbol = "USDCHF";
          tier = 2;
          pip_size = lit 1 4;
          pip_value = lit 1027 2;
          min_lot = lit 1 2;
          lot_step = lit 1 2;
          max_spread = lit 25 1;
          sessions = london ∷ ny ∷ overlap ∷ [];
        },
      )
      ∷ (
        "US30",
        record {
          symbol = "US30";
          tier = 3;
          pip_size = lit 1 0;
          pip_value = lit 1 0;
          min_lot = lit 1 2;
          lot_step = lit 1 2;
          max_spread = lit 5 0;
          sessions = ny ∷ overlap ∷ [];
        },
      )
      ∷ (
        "NAS100",
        record {
          symbol = "NAS100";
          tier = 3;
          pip_size = lit 1 0;
          pip_value = lit 1 0;
          min_lot = lit 1 2;
          lot_step = lit 1 2;
          max_spread = lit 5 0;
          sessions = ny ∷ overlap ∷ [];
        },
      )
      ∷ (
        "BTCUSD",
        record {
          symbol = "BTCUSD";
          tier = 3;
          pip_size = lit 1 0;
          pip_value = lit 1 0;
          min_lot = lit 1 2;
          lot_step = lit 1 2;
          max_spread = lit 200 0;
          sessions = london ∷ ny ∷ overlap ∷ [];
        },
      )
      ∷ (
        "USDCAD",
        record {
          symbol = "USDCAD";
          tier = 2;
          pip_size = lit 1 4;
          pip_value = lit 743 2;
          min_lot = lit 1 2;
          lot_step = lit 1 2;
          max_spread = lit 25 1;
          sessions = ny ∷ overlap ∷ [];
        },
      )
      ∷ []

  -- none is the KeyError of a symbol outside the registry.
  unfoldable pub get_instrument : String → Option Instrument
  get_instrument symbol = lookup symbol instruments

  abbrev pub profit_trigger_usd : Float
  profit_trigger_usd = lit 150 2

  abbrev pub trail_floor_usd : Float
  trail_floor_usd = lit 75 2

  -- The mode is none where no portfolio is attached.
  unfoldable pub get_profit_trigger_for_mode : Option Mode → Float
  get_profit_trigger_for_mode (some scalp_burst) = lit 300 2
  get_profit_trigger_for_mode _ = profit_trigger_usd

  unfoldable pub get_trail_floor_for_mode : Option Mode → Float
  get_trail_floor_for_mode (some scalp_burst) = lit 150 2
  get_trail_floor_for_mode _ = trail_floor_usd
