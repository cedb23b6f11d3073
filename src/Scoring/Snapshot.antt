-- ===== src/Scoring/Snapshot.antt =====
-- What the scoring engines read of a snapshot, the properties of a bar in data/schema.py, and helpers on
-- lists of bars. The engines read m1, m3 and m5 as lists of bars, oldest first. The volume of a bar is the
-- int that the aggregator sums.
use ghost_grid.Common.{
  ℕ, ◌+◌, String, Bool, List, [], ◌∷◌, ◌≡◌, All, arith, Floats, Float, ◌≤?◌, ◌<?◌, lit, sub, abs,
  fmax, fmin, if◌then◌else◌, lte_refl, true, false,
}
use ghost_grid.Config.{Regime}
use ghost_grid.Data.Bars.{Ohlcv}

module _ ⦃F : Floats⦄ where
  pub record MarketSnapshot : Type 0 where
    pub symbol : String
    pub mid : Float
    pub timestamp_ms : ℕ
    pub m1 : List Ohlcv
    pub m3 : List Ohlcv
    pub m5 : List Ohlcv
    pub cvd_history : List Float
    pub vwap : Float
    pub atr_1m : Float
    pub atr_5m : Float
    pub session : String
    pub regime : Regime

  abbrev pub vol : Ohlcv → Float
  vol b = lit b.volume 0

  unfoldable pub body : Ohlcv → Float
  body b = abs (sub b.close b.open_price)

  unfoldable pub upper_wick : Ohlcv → Float
  upper_wick b = sub b.high (fmax b.open_price b.close)

  unfoldable pub lower_wick : Ohlcv → Float
  lower_wick b = sub (fmin b.open_price b.close) b.low

  unfoldable pub is_bullish : Ohlcv → Bool
  is_bullish b = b.open_price <? b.close

  unfoldable pub is_bearish : Ohlcv → Bool
  is_bearish b = b.close <? b.open_price

  -- `sum(b.volume for b in bars)`
  unfoldable pub volume_sum : List Ohlcv → ℕ
  volume_sum [] = 0
  volume_sum (b ∷ bars) = b.volume + volume_sum bars

  -- The entry that `min` keeps of two.
  abbrev pub lesser {ℓ} : {A : Type ℓ} → (A → Float) → A → A → A
  lesser key x y = if key y <? key x then y else x

  -- `min(x ∷ xs, key=key)`: the first entry of the least key.
  unfoldable pub min_by {ℓ} : {A : Type ℓ} → (A → Float) → A → List A → A
  min_by key x [] = x
  min_by key x (y ∷ ys) = min_by key (lesser key x y) ys

  pub min_by-le {ℓ} :
      {A : Type ℓ} (key : A → Float) (x : A) (ys : List A)
      → ((key (min_by key x ys) ≤? key x) ≡ true)
        × All (λ y. (key (min_by key x ys) ≤? key y) ≡ true) ys
  unfolding min_by
  min_by-le key x [] = (lte_refl (key x), tt)
  min_by-le key x (y ∷ ys) =
      let (h, k) = min_by-le key (lesser key x y) ys in
      (
        F.lte-trans _ (key (lesser key x y)) _ h left,
        (F.lte-trans _ (key (lesser key x y)) _ h right, k),
      )
    where
      left : (key (lesser key x y) ≤? key x) ≡ true
      left = ground (arith, lte_refl (key x), F.lte-total (key x) (key y))

      right : (key (lesser key x y) ≤? key y) ≡ true
      right = ground (arith, lte_refl (key y), F.lte-total (key y) (key x))

  -- The least entry is one of the entries.
  pub min_by-All {ℓ κ} :
      {A : Type ℓ} (P : A → Type κ) (key : A → Float) (x : A) (ys : List A)
      → P x
      → All P ys
      → P (min_by key x ys)
  unfolding min_by
  min_by-All P key x [] h k = h
  min_by-All P key x (y ∷ ys) h k =
      min_by-All P key (lesser key x y) ys
        (elim (key y <? key x) as (λ b. P (if b then y else x)) [ true ↦ k.0 | false ↦ h ]) k.1
