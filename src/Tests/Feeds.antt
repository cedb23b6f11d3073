-- ===== src/Tests/Feeds.antt =====
-- Ticks, CVD values, lost connections, retries and rate limits at concrete inputs.
use ghost_grid.Common.{
  ℕ, zero, suc, ◌++◌, sub, String, ◌≡◌, refl, true, false, none, [], ◌∷◌, lit, zero_f, arith,
  string_eq, nat_eq, List, Float,
}
use ghost_grid.Common.Fixed.{fixed}
use ghost_grid.Data.Bars.{Tick, BarBuffer, m1}
use ghost_grid.Data.Ring.{CvdEngine}
use ghost_grid.Bridge.Reconnect.{Pipe, start, rounds, connects}
use ghost_grid.Bridge.Outage.{outage-gives_up}
use ghost_grid.Security.RateLimiter.{nuke, bucket_key_eq}
use ghost_grid.Security.Buckets.{Command}

-- Quotes around 1.1 in one minute.
abbrev quote : ℕ → ℕ → Tick
quote ts points = record {
  symbol = "EURUSD";
  timestamp_ms = ts;
  bid = lit points 4;
  ask = lit points 4;
  spread = zero_f;
  tick_volume = 3;
  dominant_side = "NEUTRAL";
  cvd_running = zero_f;
  session = "LONDON";
}

abbrev empty : BarBuffer
empty = record { symbol = "EURUSD"; timeframe = m1; max_size = 300; bars = [] }

abbrev values_seen : List (Float × String)
values_seen = (lit 5 0, "ASIA") ∷ (lit 7 0, "LONDON") ∷ []

abbrev zeros : ℕ → List Float
zeros zero = []
zeros (suc n) = zero_f ∷ zeros n

-- Twenty values, of which the last is five below the others.
abbrev falling : CvdEngine
falling = record {
  symbol = "EURUSD";
  buffer = zeros 19 ++ sub zero_f (lit 5 0) ∷ [];
  smoothed = zeros 20;
  last_session = none;
  total_updates = 20;
  session_boundaries = 0;
  buffer_overflows = 0;
  divergences_detected = 0;
}

abbrev lost : Pipe
lost = record { is_connected = false; connect_succeeds = false }

abbrev back : Pipe
back = record { is_connected = false; connect_succeeds = true }

outage-gives_up_example :
    connects (rounds (start true) (lost ∷ lost ∷ lost ∷ lost ∷ lost ∷ [])) (back ∷ back ∷ []) ≡ 0
unfolding start
outage-gives_up_example =
    outage-gives_up (start true) lost (lost ∷ lost ∷ lost ∷ lost ∷ []) (back ∷ back ∷ []) refl
      (ground arith) (omega arith) (ground arith)

abbrev command : ℕ → Command
command seconds = record {
  user_id = 1;
  action = nuke;
  now = lit seconds 0;
  created = lit seconds 0;
}
