-- ===== src/Portfolio/Equity.antt =====
-- portfolio/equity_tracker.py. The clock is an argument of the calls that read it; the volatility, a
-- square root of a variance, is left out.
use ghost_grid.Common.{
  ℕ, ◌≤◌, ◌≡◌, true, Option, none, some, List, [], ◌∷◌, ◌++◌, arith, ltb, drop, length,
  length-append, length-drop, All, All-append, All-drop, Bool-cases, inl, inr, le-fmax_left,
  le-fmax_right, fmin, fmin-le_left, fmin-le_right, get_last?, if◌then◌else◌, Floats, Float, ◌≤?◌,
  ◌<?◌, zero_f, lit, sub, div, fmax,
}
use ghost_grid.Portfolio.State.{PortfolioState}

module _ ⦃F : Floats⦄ where
  pub record EquityRecord : Type 0 where
    pub timestamp : Float
    pub equity : Float

  pub record EquityTracker : Type 0 where
    pub history : List EquityRecord
    pub history_length : ℕ
    pub peak_equity : Float
    pub peak_equity_ts : Float
    pub low_equity : Float
    pub low_equity_ts : Float

  -- `__init__`
  unfoldable pub new : ℕ → Float → EquityTracker
  new history_length now = record {
    history = [];
    history_length = history_length;
    peak_equity = lit 10000 0;
    peak_equity_ts = now;
    low_equity = lit 10000 0;
    low_equity_ts = now;
  }

  unfoldable pub append_trimmed : ℕ → List EquityRecord → EquityRecord → List EquityRecord
  append_trimmed limit history r =
      let longer = history ++ (r ∷ []) in
      if ltb limit (length longer) then drop 1 longer else longer

  raise_peak : Float → Float → EquityTracker → EquityTracker
  raise_peak equity timestamp t =
      if t.peak_equity <? equity
      then record t { peak_equity = equity; peak_equity_ts = timestamp }
      else t

  lower_low : Float → Float → EquityTracker → EquityTracker
  lower_low equity timestamp t =
      if equity <? t.low_equity
      then record t { low_equity = equity; low_equity_ts = timestamp }
      else t

  unfoldable pub record_equity : EquityTracker → Float → Float → EquityTracker
  unfolding raise_peak lower_low
  record_equity t equity timestamp =
      let r : EquityRecord = record { timestamp = timestamp; equity = equity } in
      let t' = record t { history = append_trimmed t.history_length t.history r } in
      lower_low equity timestamp (raise_peak equity timestamp t')

  unfoldable pub update_state_equity : EquityTracker → PortfolioState → PortfolioState
  update_state_equity t s = elim (get_last? t.history) [
    | none ↦ s
    | some r ↦ record s { net_equity = r.equity }
  ]

  unfoldable pub get_drawdown_pct : EquityTracker → Float
  get_drawdown_pct t =
      if t.peak_equity ≤? zero_f
      then zero_f
      else fmax zero_f (div (sub t.peak_equity t.low_equity) t.peak_equity)

  unfoldable pub get_drawdown_abs : EquityTracker → Float
  get_drawdown_abs t = sub t.peak_equity t.low_equity

  unfoldable pub get_latest_equity : EquityTracker → Option Float
  get_latest_equity t = elim (get_last? t.history) [ none ↦ none | some r ↦ some r.equity ]

  -- The records that are not older than the window.
  unfoldable pub history_since : Float → List EquityRecord → List (Float × Float)
  history_since cutoff [] = []
  history_since cutoff (r ∷ rs) =
      let rest = history_since cutoff rs in
      if cutoff ≤? r.timestamp then (r.timestamp, r.equity) ∷ rest else rest

  unfoldable pub get_equity_history : EquityTracker → Float → ℕ → List (Float × Float)
  get_equity_history t now seconds = history_since (sub now (lit seconds 0)) t.history

  unfoldable pub reset_tracking : EquityTracker → Float → EquityTracker
  reset_tracking t now = record t {
    history = [];
    peak_equity = t.low_equity;
    peak_equity_ts = now;
    low_equity_ts = now;
  }

  abbrev Within : Float → Float → EquityRecord → Type 0
  Within low peak r = ((low ≤? r.equity) ≡ true) × ((r.equity ≤? peak) ≡ true)

  -- The history fits its length, and every equity in it lies between the low and the peak.
  pub record IsValid (t : EquityTracker) : Type 0 where
    pub bounded : length t.history ≤ t.history_length
    pub within : All (Within t.low_equity t.peak_equity) t.history

  All-widen :
      (low low' peak peak' : Float) (rs : List EquityRecord)
      → (low' ≤? low) ≡ true
      → (peak ≤? peak') ≡ true
      → All (Within low peak) rs
      → All (Within low' peak') rs
  All-widen low low' peak peak' [] l p h = tt
  All-widen low low' peak peak' (r ∷ rs) l p ((a, b), h) = (
    (F.lte-trans low' low r.equity l a, F.lte-trans r.equity peak peak' b p),
    All-widen low low' peak peak' rs l p h,
  )

  All-append_trimmed :
      (low peak : Float) (limit : ℕ) (rs : List EquityRecord) (r : EquityRecord)
      → All (Within low peak) rs
      → Within low peak r
      → All (Within low peak) (append_trimmed limit rs r)
  unfolding append_trimmed
  All-append_trimmed low peak limit rs r h k =
      elim (Bool-cases (ltb limit (length (rs ++ r ∷ [])))) [
        | inl long ↦ rw long (All-drop (Within low peak) 1 (rs ++ r ∷ []) all)
        | inr short ↦ rw short all
      ]
    where
      all : All (Within low peak) (rs ++ r ∷ [])
      all = All-append (Within low peak) rs (r ∷ []) h (k, tt)

  length-append_trimmed :
      (limit : ℕ) (rs : List EquityRecord) (r : EquityRecord)
      → length rs ≤ limit
      → length (append_trimmed limit rs r) ≤ limit
  unfolding append_trimmed
  length-append_trimmed limit rs r h =
      ground (arith, length-append rs (r ∷ []), length-drop 1 (rs ++ r ∷ []))

  -- The fields that recording an equity writes.
  record_equity_fields :
      (t : EquityTracker) (equity timestamp : Float)
      → let t' = record_equity t equity timestamp in
        (t'.history
          ≡ append_trimmed t.history_length t.history
              (record { timestamp = timestamp; equity = equity }))
        × (t'.history_length ≡ t.history_length)
        × (t'.peak_equity ≡ fmax t.peak_equity equity)
        × (t'.low_equity ≡ fmin t.low_equity equity)
  unfolding record_equity
  record_equity_fields t equity timestamp = (ground arith, ground arith, ground arith, ground arith)

  -- Recording an equity keeps the history within its length and every recorded equity between the
  -- low and the peak.
  pub record_equity-IsValid :
      (t : EquityTracker) (equity timestamp : Float)
      → IsValid t
      → IsValid (record_equity t equity timestamp)
  record_equity-IsValid t equity timestamp v =
      let (eh, el, ep, eq) = record_equity_fields t equity timestamp in
      let low = fmin t.low_equity equity in
      let peak = fmax t.peak_equity equity in
      let r : EquityRecord = record { timestamp = timestamp; equity = equity } in
      record {
        bounded = rw (eh, el) (length-append_trimmed t.history_length t.history r v.bounded);
        within =
            rw (eh, ep, eq)
              (All-append_trimmed low peak t.history_length t.history r
                (All-widen t.low_equity low t.peak_equity peak t.history
                  (fmin-le_left t.low_equity equity) (le-fmax_left t.peak_equity equity) v.within)
                (fmin-le_right t.low_equity equity, le-fmax_right t.peak_equity equity));
      }

  -- An equity above the peak, and not below the low, is reported with a drawdown from it down to the
  -- old low.
  pub drawdown_at_peak :
      (t : EquityTracker) (equity timestamp : Float)
      → (t.peak_equity <? equity) ≡ true
      → (t.low_equity ≤? equity) ≡ true
      → get_drawdown_abs (record_equity t equity timestamp) ≡ sub equity t.low_equity
  unfolding record_equity get_drawdown_abs
  drawdown_at_peak t equity timestamp up low = ground arith
