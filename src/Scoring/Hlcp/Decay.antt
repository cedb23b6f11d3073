-- ===== src/Scoring/Hlcp/Decay.antt =====
-- scoring/hlcp/momentum_decay.py and scoring/hlcp/killzone.py.
use ghost_grid.Common.{
  ℕ, ◌≤◌, String, Bool, true, false, ◌&&◌, ◌||◌, List, [], ◌∷◌, map, ltb, length, last_n,
  if◌then◌else◌, arith, string_eq, ◌==◌, Floats, Float, ◌<?◌, ◌=?◌, zero_f, lit, neg, add, sub, div,
  fmax, sum_from,
}
use ghost_grid.Config.{Direction, long, short}
use ghost_grid.Data.Bars.{Ohlcv}
use ghost_grid.Positions.Weakness.{diffs}

module _ ⦃F : Floats⦄ where
  pub record MomentumDecaySignal : Type 0 where
    pub rsi_extreme : Bool
    pub rsi_value : Float
    pub volume_decay : Bool
    pub all_two : Bool

  -- `_rsi7`
  unfoldable pub rsi7 : List Ohlcv → Float
  rsi7 bars =
      let ds = diffs (map (λ (b : Ohlcv). b.close) (last_n 8 bars)) in
      let ag = div (sum_from zero_f (map (λ d. fmax d zero_f) ds)) (lit 7 0) in
      let al = div (sum_from zero_f (map (λ d. fmax (neg d) zero_f) ds)) (lit 7 0) in
      if ltb (length bars) 8
      then lit 50 0
      else if al =? zero_f
      then lit 100 0
      else sub (lit 100 0) (div (lit 100 0) (add (lit 1 0) (div ag al)))

  -- Whether every volume is below the one before it.
  unfoldable pub decreasing : List ℕ → Bool
  decreasing [] = true
  decreasing (x ∷ []) = true
  decreasing (x ∷ y ∷ xs) = ltb y x && decreasing (y ∷ xs)

  -- `_volume_decaying` over the last three bars.
  unfoldable pub volume_decaying : List Ohlcv → Bool
  volume_decaying bars =
      if ltb (length bars) 4
      then false
      else decreasing (map (λ (b : Ohlcv). b.volume) (last_n 3 bars))

  abbrev is_extreme : Direction → Float → Bool
  is_extreme long rsi = lit 72 0 <? rsi
  is_extreme short rsi = rsi <? lit 28 0

  unfoldable pub detect_momentum_decay : List Ohlcv → Direction → MomentumDecaySignal
  detect_momentum_decay m1_bars direction =
      if ltb (length m1_bars) 10
      then record {
        rsi_extreme = false;
        rsi_value = lit 50 0;
        volume_decay = false;
        all_two = false;
      }
      else (let rsi = rsi7 m1_bars in
          let vol_d = volume_decaying m1_bars in
          let extreme = is_extreme direction rsi in
          record {
            rsi_extreme = extreme;
            rsi_value = rsi;
            volume_decay = vol_d;
            all_two = extreme && vol_d;
          })

  unfoldable pub score_momentum_decay : MomentumDecaySignal → ℕ
  score_momentum_decay s =
      if s.all_two then 15 else if s.rsi_extreme then 8 else if s.volume_decay then 4 else 0

  pub score_momentum_decay-le : (s : MomentumDecaySignal) → score_momentum_decay s ≤ 15
  unfolding score_momentum_decay
  score_momentum_decay-le s = ground arith

unfoldable pub score_killzone : String → ℕ
score_killzone session = if session == "LONDON" || session == "OVERLAP" then 5 else 0

pub score_killzone-le : (session : String) → score_killzone session ≤ 5
unfolding score_killzone
score_killzone-le session = ground arith
