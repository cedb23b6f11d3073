-- ===== src/Data/Ticks.antt =====
-- A bar in progress of data/aggregator.py against the ticks that it is made of.
use ghost_grid.Common.{
  ℕ, ◌≡◌, ◌≤◌, ◌+◌, String, refl, false, none, some, List, [], ◌∷◌, All, arith, ap, ◌∙◌, Floats,
  Float, fmax, fmin,
}
use ghost_grid.Data.Bars.{
  Timeframe, bar_start, Tick, mid, BarBuffer, OpenBar, open_bar, update_bar, should_close, Lane,
  tick_lane,
}

module _ ⦃F : Floats⦄ where
  -- A bar as its ticks determine it: after a first tick, those of the same period.
  abbrev pub high_of : Float → List Tick → Float
  high_of h [] = h
  high_of h (t ∷ ts) = high_of (fmax h (mid t)) ts

  abbrev pub low_of : Float → List Tick → Float
  low_of l [] = l
  low_of l (t ∷ ts) = low_of (fmin l (mid t)) ts

  abbrev pub close_of : Float → List Tick → Float
  close_of c [] = c
  close_of c (t ∷ ts) = close_of (mid t) ts

  abbrev pub volume_of : List Tick → ℕ
  volume_of [] = 0
  volume_of (t ∷ ts) = t.tick_volume + volume_of ts

  abbrev pub run_lane : String → Timeframe → Lane → List Tick → Lane
  run_lane symbol tf l [] = l
  run_lane symbol tf l (t ∷ ts) = run_lane symbol tf (tick_lane symbol tf l t).0 ts

  -- The ticks that do not start a period after the given time.
  abbrev pub InPeriod : Timeframe → ℕ → List Tick → Type 0
  InPeriod tf start = All (λ t. bar_start tf t.timestamp_ms ≤ start)

  stays :
      (b : OpenBar) (t : Tick)
      → bar_start b.timeframe t.timestamp_ms ≤ b.open_ts
      → should_close b t.timestamp_ms ≡ false
  unfolding should_close
  stays b t h = ground arith

  -- The open bar after further ticks of its period.
  abbrev pub grown : OpenBar → List Tick → ℕ → OpenBar
  grown b ts volume = record b {
    high = high_of b.high ts;
    low = low_of b.low ts;
    close = close_of b.close ts;
    volume = volume;
  }

  run_lane-open :
      (symbol : String) (tf : Timeframe) (ts : List Tick) (b : OpenBar) (buffer : BarBuffer)
      → b.timeframe ≡ tf
      → InPeriod tf b.open_ts ts
      → run_lane symbol tf (record { current = some b; buffer = buffer }) ts
        ≡ record { current = some (grown b ts (b.volume + volume_of ts)); buffer = buffer }
  unfolding tick_lane update_bar
  run_lane-open symbol tf [] b buffer e h =
      ap (λ n. record { current = some (grown b [] n); buffer = buffer }) (omega arith)
  run_lane-open symbol tf (t ∷ ts) b buffer e h = rw (stays b t (rw e h.0)) (
      run_lane-open symbol tf ts (update_bar b t) buffer e h.1
      ∙ ap (λ n. record { current = some (grown b (t ∷ ts) n); buffer = buffer }) (omega arith))

  -- A first tick and further ticks of the same period give a bar in progress with the first price as
  -- its open, the last as its close, the highest and lowest of all prices, and the volumes of all
  -- ticks but the first.
  pub bar_of_ticks :
      (symbol : String) (tf : Timeframe) (buffer : BarBuffer) (t : Tick) (ts : List Tick)
      → InPeriod tf (bar_start tf t.timestamp_ms) ts
      → (run_lane symbol tf (record { current = none; buffer = buffer }) (t ∷ ts)) ≡ record {
        current = some (record {
          symbol = symbol;
          timeframe = tf;
          open_ts = bar_start tf t.timestamp_ms;
          open_price = mid t;
          high = high_of (mid t) ts;
          low = low_of (mid t) ts;
          close = close_of (mid t) ts;
          volume = volume_of ts;
        });
        buffer = buffer;
      }
  unfolding tick_lane open_bar
  bar_of_ticks symbol tf buffer t ts h =
      run_lane-open symbol tf ts (open_bar symbol tf t) buffer refl h
      ∙ ap (λ n. record { current = some (grown (open_bar symbol tf t) ts n); buffer = buffer })
          (omega arith)
