-- ===== src/Data/Lanes.antt =====
-- The aggregation of data/aggregator.py: the invariant of a lane, over any sequence of ticks.
use ghost_grid.Common.{
  ℕ, ◌≡◌, ◌≤◌, ◌<◌, ◌-◌, ◌*◌, String, refl, true, Option, none, some, List, [], ◌∷◌, ◌++◌, All,
  All-append, All-drop, inl, inr, Bool-cases, Option-cases, arith, ltb, nat_beq, subst, drop,
  length, length-drop, Floats, ◌≤?◌, lte_refl, le-fmax_left, le-fmax_right, fmin-le_left,
  fmin-le_right, zero, suc,
}
use ghost_grid.Data.Bars.{
  Timeframe, duration_ms, bar_start, Tick, mid, Ohlcv, BarBuffer, append, OpenBar, open_bar,
  update_bar, should_close, to_ohlcv, Lane, tick_lane, Aggregator, aggregate, m1, m3, m5,
  new_aggregator,
}

module _ ⦃F : Floats⦄ where
  -- A bar's prices lie between its low and its high, and it starts on a boundary of its timeframe.
  abbrev pub IsBar : Timeframe → Ohlcv → Type 0
  IsBar tf b =
      ((b.low ≤? b.open_price) ≡ true)
      × ((b.open_price ≤? b.high) ≡ true)
      × ((b.low ≤? b.close) ≡ true)
      × ((b.close ≤? b.high) ≡ true)
      × (b.timeframe ≡ tf)
      × (k : ℕ) × (b.timestamp_ms ≡ k * duration_ms tf)

  open_bar-IsBar :
      (symbol : String) (tf : Timeframe) (t : Tick) → IsBar tf (to_ohlcv (open_bar symbol tf t))
  unfolding to_ohlcv open_bar bar_start
  open_bar-IsBar symbol tf t = (lte_refl _, lte_refl _, lte_refl _, lte_refl _, refl, _, refl)

  update_bar-IsBar :
      (tf : Timeframe) (b : OpenBar) (t : Tick)
      → IsBar tf (to_ohlcv b)
      → IsBar tf (to_ohlcv (update_bar b t))
  unfolding to_ohlcv update_bar
  update_bar-IsBar tf b t (lo, oh, lc, ch, same, k, aligned) = (
    F.lte-trans _ b.low _ (fmin-le_left b.low (mid t)) lo,
    F.lte-trans _ b.high _ oh (le-fmax_left b.high (mid t)),
    fmin-le_right b.low (mid t),
    le-fmax_right b.high (mid t),
    same,
    k,
    aligned,
  )

  abbrev pub Increasing : List Ohlcv → Type 0
  Increasing [] = Unit
  Increasing (b ∷ bs) = All (λ c. b.timestamp_ms < c.timestamp_ms) bs × Increasing bs

  Increasing-snoc :
      (bs : List Ohlcv) (b : Ohlcv)
      → Increasing bs
      → All (λ c. c.timestamp_ms < b.timestamp_ms) bs
      → Increasing (bs ++ b ∷ [])
  Increasing-snoc [] b h k = (tt, tt)
  Increasing-snoc (c ∷ cs) b h k =
      (All-append _ cs (b ∷ []) h.0 (k.0, tt), Increasing-snoc cs b h.1 k.1)

  Increasing-drop : (n : ℕ) (bs : List Ohlcv) → Increasing bs → Increasing (drop n bs)
  Increasing-drop zero bs h = h
  Increasing-drop (suc n) [] h = h
  Increasing-drop (suc n) (b ∷ bs) h = Increasing-drop n bs h.1

  -- The bar in progress is a bar of the timeframe that starts after every bar of the buffer.
  abbrev pub IsCurrent : Timeframe → List Ohlcv → Option OpenBar → Type 0
  IsCurrent tf bars none = bars ≡ []
  IsCurrent tf bars (some b) = IsBar tf (to_ohlcv b) × All (λ c. c.timestamp_ms < b.open_ts) bars

  -- The buffer holds at most its size of bars of the timeframe, in strictly increasing order of time,
  -- before the bar in progress.
  pub record IsLane (tf : Timeframe) (l : Lane) : Type 0 where
    pub room : 0 < l.buffer.max_size
    pub bounded : length l.buffer.bars ≤ l.buffer.max_size
    pub bars : All (IsBar tf) l.buffer.bars
    pub increasing : Increasing l.buffer.bars
    pub current : IsCurrent tf l.buffer.bars l.current

  append-drop :
      (b : BarBuffer) (bar : Ohlcv) → (n : ℕ) × ((append b bar).bars ≡ drop n (b.bars ++ bar ∷ []))
  unfolding append
  append-drop b bar = elim (Bool-cases (ltb b.max_size (length (b.bars ++ bar ∷ [])))) [
    | inl over ↦ elim (Bool-cases (nat_beq b.max_size 0)) [
      | inl all ↦ (0, rw (over, all) refl)
      | inr some_room ↦ (length (b.bars ++ bar ∷ []) - b.max_size, rw (over, some_room) refl)
    ]
    | inr fits ↦ (0, rw fits refl)
  ]

  append-bounded :
      (b : BarBuffer) (bar : Ohlcv) → 0 < b.max_size → length (append b bar).bars ≤ b.max_size
  unfolding append
  append-bounded b bar room =
      ground (arith, length-drop (length (b.bars ++ bar ∷ []) - b.max_size) (b.bars ++ bar ∷ []))

  -- What is appended to a buffer, in place of the bars before it.
  append-All :
      (P : Ohlcv → Type 0) (b : BarBuffer) (bar : Ohlcv)
      → All P b.bars
      → P bar
      → All P (append b bar).bars
  append-All P b bar h k =
      let (n, e) = append-drop b bar in
      rw e (All-drop P n _ (All-append P b.bars (bar ∷ []) h (k, tt)))

  append-Increasing :
      (b : BarBuffer) (bar : Ohlcv)
      → Increasing b.bars
      → All (λ c. c.timestamp_ms < bar.timestamp_ms) b.bars
      → Increasing (append b bar).bars
  append-Increasing b bar h k =
      let (n, e) = append-drop b bar in rw e (Increasing-drop n _ (Increasing-snoc b.bars bar h k))

  All-before :
      (ts ts' : ℕ) (bs : List Ohlcv)
      → ts < ts'
      → All (λ c. c.timestamp_ms < ts) bs
      → All (λ c. c.timestamp_ms < ts') bs
  All-before ts ts' [] lt h = tt
  All-before ts ts' (b ∷ bs) lt h = (omega (arith, h.0), All-before ts ts' bs lt h.1)

  current-of :
      (tf : Timeframe) (l : Lane) (b : OpenBar)
      → IsLane tf l
      → l.current ≡ some b
      → IsCurrent tf l.buffer.bars (some b)
  current-of tf l b v e = subst (IsCurrent tf l.buffer.bars) e v.current

  -- A tick of a later period starts after the bar in progress.
  starts_later :
      (symbol : String) (tf : Timeframe) (b : OpenBar) (t : Tick)
      → b.timeframe ≡ tf
      → should_close b t.timestamp_ms ≡ true
      → b.open_ts < (open_bar symbol tf t).open_ts
  unfolding should_close open_bar
  starts_later symbol tf b t same later =
      ground (arith, subst (λ f. ltb b.open_ts (bar_start f t.timestamp_ms) ≡ true) same later)

  roll-IsLane :
      (symbol : String) (tf : Timeframe) (l : Lane) (b : OpenBar) (t : Tick)
      → IsLane tf l
      → IsCurrent tf l.buffer.bars (some b)
      → should_close b t.timestamp_ms ≡ true
      → IsLane tf
          (record { current = some (open_bar symbol tf t); buffer = append l.buffer (to_ohlcv b) })
  unfolding to_ohlcv append
  roll-IsLane symbol tf l b t v (bar, before) later = record {
    room = v.room;
    bounded = append-bounded l.buffer (to_ohlcv b) v.room;
    bars = append-All (IsBar tf) l.buffer (to_ohlcv b) v.bars bar;
    increasing = append-Increasing l.buffer (to_ohlcv b) v.increasing before;
    current = (
      open_bar-IsBar symbol tf t,
      append-All (λ c. c.timestamp_ms < (open_bar symbol tf t).open_ts) l.buffer (to_ohlcv b)
          (All-before b.open_ts _ l.buffer.bars (starts_later symbol tf b t bar.4 later) before)
          (starts_later symbol tf b t bar.4 later),
    );
  }

  update_bar-IsCurrent :
      (tf : Timeframe) (bars : List Ohlcv) (b : OpenBar) (t : Tick)
      → IsCurrent tf bars (some b)
      → IsCurrent tf bars (some (update_bar b t))
  unfolding update_bar
  update_bar-IsCurrent tf bars b t (bar, before) = (update_bar-IsBar tf b t bar, before)

  pub tick_lane-IsLane :
      (symbol : String) (tf : Timeframe) (l : Lane) (t : Tick)
      → IsLane tf l
      → IsLane tf (tick_lane symbol tf l t).0
  unfolding tick_lane
  tick_lane-IsLane symbol tf l t v = elim (Option-cases l.current) [
    | inl empty ↦ rw empty (record {
      room = v.room;
      bounded = v.bounded;
      bars = v.bars;
      increasing = v.increasing;
      current =
          (open_bar-IsBar symbol tf t, rw (subst (IsCurrent tf l.buffer.bars) empty v.current) tt);
    })
    | inr (b, e) ↦ elim (Bool-cases (should_close b t.timestamp_ms)) [
      | inl later ↦ rw (e, later) (roll-IsLane symbol tf l b t v (current-of tf l b v e) later)
      | inr same ↦
          rw (e, same)
            (record {
              room = v.room;
              bounded = v.bounded;
              bars = v.bars;
              increasing = v.increasing;
              current = update_bar-IsCurrent tf l.buffer.bars b t (current-of tf l b v e);
            })
    ]
  ]

  pub record IsAggregator (a : Aggregator) : Type 0 where
    pub lane_m1 : IsLane m1 a.lane_m1
    pub lane_m3 : IsLane m3 a.lane_m3
    pub lane_m5 : IsLane m5 a.lane_m5

  pub new-IsAggregator : (symbol : String) → IsAggregator (new_aggregator symbol)
  unfolding new_aggregator
  new-IsAggregator symbol = ground arith

  pub aggregate-IsAggregator :
      (a : Aggregator) (t : Tick) → IsAggregator a → IsAggregator (aggregate a t).0
  unfolding aggregate
  aggregate-IsAggregator a t v = record {
    lane_m1 = tick_lane-IsLane a.symbol m1 a.lane_m1 t v.lane_m1;
    lane_m3 = tick_lane-IsLane a.symbol m3 a.lane_m3 t v.lane_m3;
    lane_m5 = tick_lane-IsLane a.symbol m5 a.lane_m5 t v.lane_m5;
  }

  -- The aggregator after ticks, with the bars that they completed.
  unfoldable pub aggregate_all : Aggregator → List Tick → Aggregator
  aggregate_all a [] = a
  aggregate_all a (t ∷ ts) = aggregate_all (aggregate a t).0 ts

  pub aggregate_all-IsAggregator :
      (ts : List Tick) (a : Aggregator) → IsAggregator a → IsAggregator (aggregate_all a ts)
  unfolding aggregate_all
  aggregate_all-IsAggregator [] a v = v
  aggregate_all-IsAggregator (t ∷ ts) a v =
      aggregate_all-IsAggregator ts (aggregate a t).0 (aggregate-IsAggregator a t v)

  -- After any sequence of ticks, in any order of their times, each buffer of a new aggregator holds
  -- at most its size of bars of its timeframe, which start at a boundary in strictly increasing
  -- order and before the bar in progress, and every bar has its open and its close between its low
  -- and its high.
  pub aggregated-IsAggregator :
      (symbol : String) (ts : List Tick) → IsAggregator (aggregate_all (new_aggregator symbol) ts)
  aggregated-IsAggregator symbol ts = aggregate_all-IsAggregator ts _ (new-IsAggregator symbol)
