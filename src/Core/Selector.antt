-- ===== src/Core/Selector.antt =====
-- core/mode_selector.py: ModeSelector. The words of the snapshot come in as they are after `upper`; the journal is
-- the one of the drift detector.
use ghost_grid.Common.{
  String, ◌≡◌, refl, Bool, true, false, ◌&&◌, ◌||◌, Option, some, List, [], if◌then◌else◌, ◌==◌,
  string_eq, Floats, ◌<?◌, zero_f, lit,
}
use ghost_grid.Config.{Mode, scalp_burst, daily_target, aggressive_compounding}
use ghost_grid.Portfolio.State.{PortfolioState}
use ghost_grid.Observability.Drift.{
  global_detector, JournalRow, DriftAlert, check_drift, compute_win_rate, closed_trades,
  recent_trades,
}

module _ ⦃F : Floats⦄ where
  -- `_last_reason`
  pub data SelectorReason : Type 0 where
    weak_in_chop healthy_trend kept defaulted : SelectorReason

  abbrev pub drift_pressure : DriftAlert → Bool
  drift_pressure drift = drift.drifted || (drift.live_wr <? lit 450 1)

  abbrev pub is_kept : Mode → Bool
  is_kept scalp_burst = true
  is_kept aggressive_compounding = true
  is_kept daily_target = true
  is_kept _ = false

  -- `evaluate`: the mode and the reason kept.
  unfoldable pub evaluate_mode : String → String → DriftAlert → Mode → Mode × SelectorReason
  evaluate_mode regime session drift current =
      if (regime == "CHOP") && drift_pressure drift
      then (daily_target, weak_in_chop)
      else if (regime == "TREND") && ((session == "LONDON") || (session == "NEW_YORK"))
      then (scalp_burst, healthy_trend)
      else if is_kept current
      then (current, kept)
      else (scalp_burst, defaulted)

  -- `apply`
  unfoldable pub apply_mode :
      String → String → Option (List JournalRow) → PortfolioState → PortfolioState × Mode
  apply_mode regime session journal p =
      let drift = check_drift global_detector (some 20) journal in
      let mode = (evaluate_mode regime session drift p.current_mode).0 in
      (record p { current_mode = mode }, mode)

  -- Without a readable closed trade in the journal, where zero is below forty-five, a snapshot in chop selects
  -- DAILY_TARGET for weak performance, though the detector finds no drift.
  pub apply_mode-no_trades :
      (session : String) (rows : List JournalRow) (p : PortfolioState)
      → (zero_f <? lit 450 1) ≡ true
      → closed_trades rows ≡ []
      → ((check_drift global_detector (some 20) (some rows)).drifted ≡ false)
        × ((apply_mode "CHOP" session (some rows) p).1 ≡ daily_target)
  unfolding apply_mode check_drift compute_win_rate evaluate_mode recent_trades
  apply_mode-no_trades session rows p h e = (rw e refl, rw (e, h) refl)
