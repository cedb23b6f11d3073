-- ===== src/Scoring/Hmp/Gaps.antt =====
-- The gap that scoring/hmp/fvg.py finds, among the last bars.
use ghost_grid.Common.{
  ℕ, zero, suc, ◌≡◌, ◌∙◌, refl, sym, ap, subst, some-injective, true, some, List, [], ◌∷◌, All,
  All-select, get_elem?, select, if◌then◌else◌, arith, inl, inr, Bool-cases, Floats, Float, ◌≤?◌,
  ◌<?◌, zero_f, lit, sub, div, abs,
}
use ghost_grid.Config.{Direction, long, short}
use ghost_grid.Data.Bars.{Ohlcv, from_end}
use ghost_grid.Scoring.Snapshot.{min_by-le, min_by-All}
use ghost_grid.Scoring.Hmp.Fvg.{FvgResult, check_fvg, gaps, is_open_gap, nearest, find_nearest_fvg}

module _ ⦃F : Floats⦄ where
  -- The first and the third of three bars leave a gap, and the price has not gone through it: for a long it is above
  -- the high of the first bar, for a short below its low.
  abbrev pub OpenGap : Direction → Float → Ohlcv → Ohlcv → Type 0
  OpenGap long price c0 c2 = ((c0.high <? c2.low) ≡ true) × ((c0.high <? price) ≡ true)
  OpenGap short price c0 c2 = ((c2.high <? c0.low) ≡ true) × ((price <? c0.low) ≡ true)

  -- A result that spans the gap.
  abbrev pub Spans : Direction → Ohlcv → Ohlcv → FvgResult → Type 0
  Spans long c0 c2 f = (f.bottom ≡ c0.high) × (f.top ≡ c2.low)
  Spans short c0 c2 f = (f.bottom ≡ c2.high) × (f.top ≡ c0.low)

  abbrev pub edge : Direction → Ohlcv → Float
  edge long c0 = c0.high
  edge short c0 = c0.low

  -- The distance of the price from the edge of the first bar, in average ranges.
  abbrev pub away : Direction → Float → Float → Ohlcv → Float
  away d price atr c0 = if zero_f <? atr then div (abs (sub price (edge d c0))) atr else lit 999 0

  -- The result is an open gap of three bars in a row.
  abbrev pub IsSeen : List Ohlcv → Float → Float → Direction → FvgResult → Type 0
  IsSeen bars price atr d f =
      (i : ℕ) × (c0 : Ohlcv) × (c2 : Ohlcv) × (get_elem? bars i ≡ some c0)
      × (get_elem? bars (suc (suc i)) ≡ some c2)
      × OpenGap d price c0 c2
      × Spans d c0 c2 f
      × (f.distance_pct ≡ away d price atr c0)

  check_fvg-open :
      (c0 c2 : Ohlcv) (price atr : Float) (d : Direction)
      → is_open_gap (check_fvg c0 c2 price atr d) ≡ true
      → OpenGap d price c0 c2
        × Spans d c0 c2 (check_fvg c0 c2 price atr d)
        × ((check_fvg c0 c2 price atr d).distance_pct ≡ away d price atr c0)
  unfolding check_fvg
  check_fvg-open c0 c2 price atr long h = ground arith
  check_fvg-open c0 c2 price atr short h = ground arith

  check_fvg-seen :
      (c0 c2 : Ohlcv) (price atr : Float) (d : Direction)
      → OpenGap d price c0 c2
      → (is_open_gap (check_fvg c0 c2 price atr d) ≡ true)
        × ((check_fvg c0 c2 price atr d).distance_pct ≡ away d price atr c0)
  unfolding check_fvg
  check_fvg-seen c0 c2 price atr long h = ground arith
  check_fvg-seen c0 c2 price atr short h = ground arith

  abbrev SeenOpen : List Ohlcv → Float → Float → Direction → FvgResult → Type 0
  SeenOpen bars price atr d f = is_open_gap f ≡ true → IsSeen bars price atr d f

  later-SeenOpen :
      (bar : Ohlcv) (bars : List Ohlcv) (price atr : Float) (d : Direction) (fs : List FvgResult)
      → All (SeenOpen bars price atr d) fs
      → All (SeenOpen (bar ∷ bars) price atr d) fs
  later-SeenOpen bar bars price atr d [] h = tt
  later-SeenOpen bar bars price atr d (f ∷ fs) h = (
    λ good. let (i, c0, c2, p, q, o, spans, far) = h.0 good in (suc i, c0, c2, p, q, o, spans, far),
    later-SeenOpen bar bars price atr d fs h.1,
  )

  gaps-SeenOpen :
      (price atr : Float) (d : Direction) (bars : List Ohlcv)
      → All (SeenOpen bars price atr d) (gaps price atr d bars)
  unfolding gaps
  gaps-SeenOpen price atr d [] = tt
  gaps-SeenOpen price atr d (a ∷ []) = tt
  gaps-SeenOpen price atr d (a ∷ b ∷ []) = tt
  gaps-SeenOpen price atr d (a ∷ b ∷ c ∷ rest) = (
    λ good.
        let (o, spans, far) = check_fvg-open a c price atr d good in
        (zero, a, c, refl, refl, o, spans, far),
    later-SeenOpen a (b ∷ c ∷ rest) price atr d (gaps price atr d (b ∷ c ∷ rest))
        (gaps-SeenOpen price atr d (b ∷ c ∷ rest)),
  )

  abbrev NotNearer : Float → FvgResult → Type 0
  NotNearer x g = (x ≤? g.distance_pct) ≡ true

  All-select_head :
      (P : FvgResult → Type 0) (f : FvgResult) (fs : List FvgResult)
      → All P (select is_open_gap (f ∷ fs))
      → is_open_gap f ≡ true
      → P f
  All-select_head P f fs h good = (rw good at h).0

  All-select_tail :
      (P : FvgResult → Type 0) (f : FvgResult) (fs : List FvgResult)
      → All P (select is_open_gap (f ∷ fs))
      → All P (select is_open_gap fs)
  All-select_tail P f fs h = elim (Bool-cases (is_open_gap f)) [
    | inl good ↦ (rw good at h).1
    | inr bad ↦ rw bad at h
  ]

  first-bound :
      (x price atr : Float) (d : Direction) (c0 c2 : Ohlcv) (fs : List FvgResult)
      → All (NotNearer x) (select is_open_gap (check_fvg c0 c2 price atr d ∷ fs))
      → OpenGap d price c0 c2
      → (x ≤? away d price atr c0) ≡ true
  first-bound x price atr d c0 c2 fs h o =
      let (good, far) = check_fvg-seen c0 c2 price atr d o in
      subst (λ y. (x ≤? y) ≡ true) far
        (All-select_head (NotNearer x) (check_fvg c0 c2 price atr d) fs h good)

  -- A bound on the candidates is a bound on the open gaps of all three bars in a row.
  candidates-bound :
      (x price atr : Float) (d : Direction) (bars : List Ohlcv)
      → All (NotNearer x) (select is_open_gap (gaps price atr d bars))
      → (i : ℕ) (c0 c2 : Ohlcv) → get_elem? bars i ≡ some c0
      → get_elem? bars (suc (suc i)) ≡ some c2
      → OpenGap d price c0 c2
      → (x ≤? away d price atr c0) ≡ true
  unfolding gaps
  candidates-bound x price atr d [] h i c0 c2 p q o = cc
  candidates-bound x price atr d (a ∷ []) h zero c0 c2 p q o = cc
  candidates-bound x price atr d (a ∷ []) h (suc i) c0 c2 p q o = cc
  candidates-bound x price atr d (a ∷ b ∷ []) h zero c0 c2 p q o = cc
  candidates-bound x price atr d (a ∷ b ∷ []) h (suc i) c0 c2 p q o = cc
  candidates-bound x price atr d (a ∷ b ∷ c ∷ rest) h zero c0 c2 p q o =
      let same_0 : a ≡ c0 = some-injective a c0 p in
      let same_2 : c ≡ c2 = some-injective c c2 q in
      subst (λ k. (x ≤? away d price atr k) ≡ true) same_0
        (first-bound x price atr d a c (gaps price atr d (b ∷ c ∷ rest)) h (
          subst (λ k. OpenGap d price k c) (sym same_0)
            (subst (λ k. OpenGap d price c0 k) (sym same_2) o)))
  candidates-bound x price atr d (a ∷ b ∷ c ∷ rest) h (suc i) c0 c2 p q o =
      candidates-bound x price atr d (b ∷ c ∷ rest)
        (All-select_tail (NotNearer x) (check_fvg a c price atr d) (gaps price atr d (b ∷ c ∷ rest))
          h)
        i c0 c2 p q o

  -- The gaps that `find_nearest_fvg` chooses from.
  abbrev candidates : List Ohlcv → Float → Float → Direction → List FvgResult
  candidates bars price atr d = select is_open_gap (gaps price atr d bars)

  nearest-found :
      (P : FvgResult → Type 0) (fs : List FvgResult)
      → All P fs
      → (nearest fs).found ≡ true
      → P (nearest fs) × All (NotNearer (nearest fs).distance_pct) fs
  unfolding nearest
  nearest-found P [] h e = cc
  nearest-found P (f ∷ fs) h e = (
    min_by-All P (λ g. g.distance_pct) f fs h.0 h.1,
    min_by-le (λ (g : FvgResult). g.distance_pct) f fs,
  )

  find_nearest_fvg-found :
      (m3_bars : List Ohlcv) (price atr_5m : Float) (d : Direction)
      → (find_nearest_fvg m3_bars price atr_5m d).found ≡ true
      → find_nearest_fvg m3_bars price atr_5m d
        ≡ nearest (candidates (from_end 20 m3_bars) price atr_5m d)
  unfolding find_nearest_fvg
  find_nearest_fvg-found m3_bars price atr_5m d e = ground arith

  -- A gap that is found lies between the first and the third of three bars in a row among the last
  -- twenty, and the price has not gone through it; its distance is that of the price from its edge
  -- at the first bar, and no gap of three bars in a row among these, which the price has not gone
  -- through, is nearer.
  pub find_nearest_fvg-nearest :
      (m3_bars : List Ohlcv) (price atr_5m : Float) (d : Direction)
      → (find_nearest_fvg m3_bars price atr_5m d).found ≡ true
      → let f = find_nearest_fvg m3_bars price atr_5m d in
        let bars = from_end 20 m3_bars in
        IsSeen bars price atr_5m d f
        × ((i : ℕ) (c0 c2 : Ohlcv)
            → get_elem? bars i ≡ some c0
            → get_elem? bars (suc (suc i)) ≡ some c2
            → OpenGap d price c0 c2
            → (f.distance_pct ≤? away d price atr_5m c0) ≡ true)
  find_nearest_fvg-nearest m3_bars price atr_5m d e =
      let bars = from_end 20 m3_bars in
      let same = find_nearest_fvg-found m3_bars price atr_5m d e in
      let (seen, bound) =
        nearest-found (IsSeen bars price atr_5m d) (candidates bars price atr_5m d)
          (All-select (SeenOpen bars price atr_5m d) (IsSeen bars price atr_5m d) is_open_gap
            (gaps price atr_5m d bars) (λ f good h. h good) (gaps-SeenOpen price atr_5m d bars))
          (ap (λ (f : FvgResult). f.found) (sym same) ∙ e) in
      rw same (seen, candidates-bound _ price atr_5m d bars bound)
