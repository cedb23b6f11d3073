-- ===== src/Tests/Bot.antt =====
-- The pipeline of main.py at concrete inputs.
use ghost_grid.Common.{true, Option, none, some, List, [], ◌∷◌, lit, nat_eq}
use ghost_grid.Common.Fixed.{fixed}
use ghost_grid.Config.{long, trend}
use ghost_grid.Positions.Machine.{Machine, new}
use ghost_grid.Portfolio.State.{initial}
use ghost_grid.Scoring.Gate.{ConfluenceScore}
use ghost_grid.Main.Pipeline.{Bot, LiveSnapshot}

abbrev euro : Machine
euro = new 7 "EURUSD" long (lit 11000 4) (lit 10950 4) (lit 1 0) 0 (lit 10 0) (lit 1 4)

-- A price below the stop of the open position.
abbrev fall : LiveSnapshot
fall = record {
  seen = record {
    symbol = "EURUSD";
    mid = lit 10900 4;
    m1 = [];
    m5 = [];
    cvd = [];
    atr_1m = lit 10 4;
  };
  bid = lit 10899 4;
  ask = lit 10901 4;
  spread = lit 2 4;
  atr_5m = lit 40 4;
}

abbrev bot : Bot
bot = record {
  current_prices = [];
  heap = (0, euro) ∷ [];
  books = (
    record { positions = (7, 0) ∷ [] },
    record initial {
      starting_equity = lit 10000 0;
      net_equity = lit 10000 0;
      open_positions = (7, 0) ∷ [];
    },
  );
  gate = record { consecutive = ("EURUSD", 1) ∷ []; alert_cooldown = []; watchlist_decay = [] };
  pos_id_counter = 8;
  is_started = true;
}

abbrev score : ConfluenceScore
score = record {
  symbol = "EURUSD";
  hmp = 60;
  hlcp = 60;
  mpp = 60;
  composite = 180;
  direction = long;
  regime = trend;
  session = "LONDON";
  timestamp_ms = 0;
}

abbrev run : List (Option ConfluenceScore × LiveSnapshot)
run = (some score, fall) ∷ (none, fall) ∷ []
