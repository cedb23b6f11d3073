-- ===== src/Observability/Drift.antt =====
-- observability/drift_detector.py. The journal is the list of its rows; none is a file that is missing or cannot
-- be read. The text of an alert is left out.
use ghost_grid.Common.{
  ℕ, suc, Bool, false, not, ◌&&◌, Option, none, some, List, [], ◌∷◌, length, last_n, ltb, nat_beq,
  if◌then◌else◌, Floats, Float, ◌<?◌, zero_f, lit, sub, mul, div,
}

module _ ⦃F : Floats⦄ where
  -- The field `pnl_usd`: empty, no number, or a number.
  pub data PnlField : Type 0 where
    empty unreadable : PnlField
    number : Float → PnlField

  pub record JournalRow : Type 0 where
    pub has_exit_price : Bool
    pub pnl_usd : PnlField

  pub record DriftDetector : Type 0 where
    pub backtest_wr : Float
    pub drift_threshold : Float
    pub lookback_trades : ℕ

  -- `get_detector`, with the values of config/constants.py.
  unfoldable pub global_detector : DriftDetector
  global_detector = record {
    backtest_wr = lit 58 0;
    drift_threshold = lit 8 0;
    lookback_trades = 20;
  }

  -- A row without a readable profit is passed over.
  abbrev pub add_number : PnlField → List Float → List Float
  add_number empty rest = rest
  add_number unreadable rest = rest
  add_number (number pnl) rest = pnl ∷ rest

  -- The profit of a closed trade.
  abbrev pub add_closed : JournalRow → List Float → List Float
  add_closed row rest = if row.has_exit_price then add_number row.pnl_usd rest else rest

  unfoldable pub closed_trades : List JournalRow → List Float
  closed_trades [] = []
  closed_trades (row ∷ rows) = add_closed row (closed_trades rows)

  -- `closed_trades[-lookback:]`, where the slice from -0 is the whole list.
  unfoldable pub recent_trades : ℕ → List Float → List Float
  recent_trades lookback trades =
      if ltb lookback (length trades) && not (nat_beq lookback 0)
      then last_n lookback trades
      else trades

  unfoldable pub wins : List Float → ℕ
  wins [] = 0
  wins (pnl ∷ trades) = let later = wins trades in if zero_f <? pnl then suc later else later

  abbrev pub rate_of : List Float → Option Float
  rate_of [] = none
  rate_of (pnl ∷ trades) =
      some (mul (div (lit (wins (pnl ∷ trades)) 0) (lit (length (pnl ∷ trades)) 0)) (lit 100 0))

  abbrev pub or_default : Option ℕ → DriftDetector → ℕ
  or_default none d = d.lookback_trades
  or_default (some lookback) d = lookback

  abbrev pub rate_in : DriftDetector → Option ℕ → Option (List JournalRow) → Option Float
  rate_in d lookback none = none
  rate_in d lookback (some rows) =
      rate_of (recent_trades (or_default lookback d) (closed_trades rows))

  unfoldable pub compute_win_rate :
      DriftDetector → Option ℕ → Option (List JournalRow) → Option Float
  compute_win_rate = rate_in

  -- `_count_closed_trades`
  unfoldable pub count_closed : List JournalRow → ℕ
  count_closed [] = 0
  count_closed (row ∷ rows) =
      let later = count_closed rows in if row.has_exit_price then suc later else later

  abbrev pub count_closed_trades : Option (List JournalRow) → ℕ
  count_closed_trades none = 0
  count_closed_trades (some rows) = count_closed rows

  pub record DriftAlert : Type 0 where
    pub drifted : Bool
    pub backtest_wr : Float
    pub live_wr : Float
    pub threshold_wr : Float
    pub trades_evaluated : ℕ

  abbrev pub alert_of : DriftDetector → ℕ → Option Float → DriftAlert
  alert_of d total none = record {
    drifted = false;
    backtest_wr = d.backtest_wr;
    live_wr = zero_f;
    threshold_wr = sub d.backtest_wr d.drift_threshold;
    trades_evaluated = 0;
  }
  alert_of d total (some live_wr) =
      let threshold = sub d.backtest_wr d.drift_threshold in
      record {
        drifted = live_wr <? threshold;
        backtest_wr = d.backtest_wr;
        live_wr = live_wr;
        threshold_wr = threshold;
        trades_evaluated = total;
      }

  unfoldable pub check_drift : DriftDetector → Option ℕ → Option (List JournalRow) → DriftAlert
  check_drift d lookback journal =
      alert_of d (count_closed_trades journal) (compute_win_rate d lookback journal)
