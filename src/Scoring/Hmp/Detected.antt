-- ===== src/Scoring/Hmp/Detected.antt =====
-- What the detectors of scoring/hmp/ have found, where they have found something.
use ghost_grid.Common.{
  ℕ, ◌+◌, ◌-◌, ◌*◌, ◌≡◌, refl, subst, some-injective, true, Option, none, some, List, [], ◌∷◌, All,
  All-append, All-all_of, All-reverse_aux, ltb, length, get_elem?, get_last?, but_last_n, all_of,
  range, All-range, length-take_all, length-drop, drop, arith, inl, inr, Bool-cases, Option-cases,
  Floats, Float,
}
use ghost_grid.Config.{Direction}
use ghost_grid.Data.Bars.{Ohlcv, from_end}
use ghost_grid.Scoring.Hmp.Swing.{
  SwingType, SwingPoint, beats, swing_price, left_of, right_of, is_swing, swing_of_candidate,
  swing_at, swings_in, detect_swings, first, get_last_swing,
}
use ghost_grid.Scoring.Hmp.Bos.{detect_bos, swing_of, beyond}

module _ ⦃F : Floats⦄ where
  -- The price of a point is that of a bar which has a whole window of bars on either side, all of which it beats.
  abbrev pub IsSwing : SwingType → List Ohlcv → ℕ → SwingPoint → Type 0
  IsSwing type bars window p =
      (i : ℕ) × (c : Ohlcv) × (get_elem? bars i ≡ some c)
      × (p.price ≡ swing_price type c)
      × (length (left_of bars window i) ≡ window)
      × (length (right_of bars window i) ≡ window)
      × All (λ b. beats type c b ≡ true) (left_of bars window i)
      × All (λ b. beats type c b ≡ true) (right_of bars window i)

  is_swing-sides :
      (type : SwingType) (bars : List Ohlcv) (window i : ℕ) (c : Ohlcv)
      → is_swing type bars window i c ≡ true
      → (all_of (beats type c) (left_of bars window i) ≡ true)
        × (all_of (beats type c) (right_of bars window i) ≡ true)
  unfolding is_swing
  is_swing-sides type bars window i c h = ground arith

  -- There is a window of bars on either side of an index.
  abbrev IsInside : List Ohlcv → ℕ → ℕ → Type 0
  IsInside bars window i =
      (length (left_of bars window i) ≡ window) × (length (right_of bars window i) ≡ window)

  candidate-IsSwing :
      (type : SwingType) (bars : List Ohlcv) (window i : ℕ) (o : Option Ohlcv)
      → IsInside bars window i
      → get_elem? bars i ≡ o
      → All (IsSwing type bars window) (swing_of_candidate type bars window i o)
  unfolding swing_of_candidate
  candidate-IsSwing type bars window i none inside at = tt
  candidate-IsSwing type bars window i (some c) inside at =
      elim (Bool-cases (is_swing type bars window i c)) [
        | inl good ↦ rw good (
          (
            i,
            c,
            at,
            refl,
            inside.0,
            inside.1,
            All-all_of (beats type c) (left_of bars window i)
                (is_swing-sides type bars window i c good).0,
            All-all_of (beats type c) (right_of bars window i)
                (is_swing-sides type bars window i c good).1,
          ),
          tt,
        )
        | inr bad ↦ rw bad tt
      ]

  swings_in-IsSwing :
      (type : SwingType) (bars : List Ohlcv) (window : ℕ) (is : List ℕ)
      → All (IsInside bars window) is
      → All (IsSwing type bars window) (swings_in type bars window is)
  unfolding swings_in swing_at
  swings_in-IsSwing type bars window [] inside = tt
  swings_in-IsSwing type bars window (i ∷ is) inside =
      All-append _ (swing_at type bars window i) _
        (candidate-IsSwing type bars window i (get_elem? bars i) inside.0 refl)
        (swings_in-IsSwing type bars window is inside.1)

  searched-IsInside :
      (bars : List Ohlcv) (window : ℕ)
      → All (IsInside bars window) (range window (length bars - window - window))
  searched-IsInside bars window =
      All-range (IsInside bars window) window (length bars - window - window) λ i low high. (
        length-take_all window (drop (i - window) bars)
            (omega (arith, length-drop (i - window) bars)),
        length-take_all window (drop (i + 1) bars) (omega (arith, length-drop (i + 1) bars)),
      )

  detect_swings-IsSwing :
      (type : SwingType) (bars : List Ohlcv) (window lookback : ℕ)
      → All (IsSwing type (from_end lookback bars) window) (detect_swings type bars window lookback)
  unfolding detect_swings
  detect_swings-IsSwing type bars window lookback =
      elim (Bool-cases (ltb (length bars) (window * 2 + 1))) [
        | inl few ↦ rw few tt
        | inr enough ↦ rw enough (
            All-reverse_aux _
              (swings_in type (from_end lookback bars) window
                (range window (length (from_end lookback bars) - window - window)))
              []
              (swings_in-IsSwing type (from_end lookback bars) window _
                (searched-IsInside (from_end lookback bars) window))
              tt)
      ]

  first-All :
      (P : SwingPoint → Type 0) (ps : List SwingPoint) (p : SwingPoint)
      → All P ps
      → first ps ≡ some p
      → P p
  first-All P [] p h e = cc
  first-All P (q ∷ ps) p h e = subst P (some-injective q p e) h.0

  pub get_last_swing-IsSwing :
      (type : SwingType) (bars : List Ohlcv) (p : SwingPoint)
      → get_last_swing type bars ≡ some p
      → IsSwing type (from_end 30 bars) 2 p
  unfolding get_last_swing
  get_last_swing-IsSwing type bars p e =
      first-All (IsSwing type (from_end 30 bars) 2) (detect_swings type bars 2 30) p
        (detect_swings-IsSwing type bars 2 30) e

  detect_bos-swing :
      (m5_bars m3_bars : List Ohlcv) (d : Direction) (atr_5m : Float)
      → (detect_bos m5_bars m3_bars d atr_5m).confirmed ≡ true
      → (current : Ohlcv) × (p : SwingPoint) × (get_last? m5_bars ≡ some current)
        × (get_last_swing (swing_of d) (but_last_n 1 m5_bars) ≡ some p)
        × (beyond d current.close p.price ≡ true)
  unfolding detect_bos
  detect_bos-swing m5_bars m3_bars d atr_5m h = elim (Option-cases (get_last? m5_bars)) [
    | inl a ↦ ground arith
    | inr (current, a) ↦ elim (Option-cases (get_last_swing (swing_of d) (but_last_n 1 m5_bars))) [
      | inl b ↦ ground arith
      | inr (p, b) ↦ (current, p, a, b, ground arith)
    ]
  ]

  -- A confirmed break of structure has a last close beyond the price of a bar, among the last thirty
  -- before it, whose high is above those of the two bars on either side, or for a short whose low is
  -- below theirs.
  pub detect_bos-breaks :
      (m5_bars m3_bars : List Ohlcv) (d : Direction) (atr_5m : Float)
      → (detect_bos m5_bars m3_bars d atr_5m).confirmed ≡ true
      → (current : Ohlcv) × (p : SwingPoint) × (get_last? m5_bars ≡ some current)
        × IsSwing (swing_of d) (from_end 30 (but_last_n 1 m5_bars)) 2 p
        × (beyond d current.close p.price ≡ true)
  detect_bos-breaks m5_bars m3_bars d atr_5m h =
      let (current, p, a, b, c) = detect_bos-swing m5_bars m3_bars d atr_5m h in
      (current, p, a, get_last_swing-IsSwing (swing_of d) (but_last_n 1 m5_bars) p b, c)
