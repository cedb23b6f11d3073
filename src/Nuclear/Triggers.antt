-- ===== src/Nuclear/Triggers.antt =====
-- nuclear/triggers.py. On numbers no trigger raises, so the handler around them is never reached.
use ghost_grid.Common.{
  ◌≡◌, refl, Bool, true, false, ◌||◌, Option, none, some, List, [], ◌∷◌, ◌++◌, ◌≢◌, ap, inl, inr,
  All, Bool-cases, List-cases, ◌⊎◌, arith, if◌then◌else◌, Floats, ◌≤?◌, ◌<?◌, lit, neg, add, mul,
}
use ghost_grid.Portfolio.State.{PortfolioState}

-- nuclear/models.py
pub data NuclearReason : Type 0 where
  combined_profit daily_gain_target loss_protection daily_loss_limit : NuclearReason
  market_exhaustion latency_anomaly correlation_spike manual_telegram : NuclearReason

module _ ⦃F : Floats⦄ where
  unfoldable pub trigger_combined_profit : PortfolioState → Bool
  trigger_combined_profit s = lit 1000 2 ≤? s.unrealized_pnl

  unfoldable pub trigger_daily_gain_target : PortfolioState → Bool
  trigger_daily_gain_target s =
      mul s.starting_equity (lit 15 2) ≤? add s.realized_pnl s.unrealized_pnl

  unfoldable pub trigger_loss_protection : PortfolioState → Bool
  trigger_loss_protection s = s.unrealized_pnl ≤? neg (lit 600 2)

  unfoldable pub trigger_daily_loss_limit : PortfolioState → Bool
  trigger_daily_loss_limit s =
      add s.realized_pnl s.unrealized_pnl ≤? neg (mul s.starting_equity (lit 4 2))

  unfoldable pub trigger_market_exhaustion : PortfolioState → Bool
  trigger_market_exhaustion s = (s.avg_basket_rsi <? lit 25 0) || (lit 75 0 <? s.avg_basket_rsi)

  unfoldable pub trigger_latency_anomaly : PortfolioState → Bool
  trigger_latency_anomaly s = lit 5000 1 <? s.last_fill_latency_ms

  unfoldable pub trigger_correlation_spike : PortfolioState → Bool
  trigger_correlation_spike s = lit 80 2 <? s.avg_pair_correlation

  -- `TRIGGERS`, in order.
  unfoldable pub triggers : List (NuclearReason × (PortfolioState → Bool))
  triggers =
      (combined_profit, trigger_combined_profit)
      ∷ (daily_gain_target, trigger_daily_gain_target)
      ∷ (loss_protection, trigger_loss_protection)
      ∷ (daily_loss_limit, trigger_daily_loss_limit)
      ∷ (market_exhaustion, trigger_market_exhaustion)
      ∷ (latency_anomaly, trigger_latency_anomaly)
      ∷ (correlation_spike, trigger_correlation_spike)
      ∷ []

  unfoldable pub first_firing :
      List (NuclearReason × (PortfolioState → Bool)) → PortfolioState → Option NuclearReason
  first_firing [] s = none
  first_firing ((reason, condition) ∷ rest) s =
      let later = first_firing rest s in if condition s then some reason else later

  abbrev pub is_empty {ℓ} : {A : Type ℓ} → List A → Bool
  is_empty [] = true
  is_empty (_ ∷ _) = false

  unfoldable pub evaluate_triggers : PortfolioState → Option NuclearReason
  evaluate_triggers s = if is_empty s.open_positions then none else first_firing triggers s

  -- What a verdict on a list of triggers means: the first one that fires, after ones that do not.
  abbrev pub Decides :
      List (NuclearReason × (PortfolioState → Bool))
      → PortfolioState
      → Option NuclearReason
      → Type 0
  Decides ts s none = All (λ t. t.1 s ≡ false) ts
  Decides ts s (some reason) =
      (before : List (NuclearReason × (PortfolioState → Bool))) × (condition : PortfolioState
        → Bool)
      × (after : List (NuclearReason × (PortfolioState → Bool))) × (ts
          ≡ before ++ (reason, condition) ∷ after)
      × All (λ t. t.1 s ≡ false) before
      × (condition s ≡ true)

  Decides-skip :
      (t : NuclearReason × (PortfolioState → Bool))
      (ts : List (NuclearReason × (PortfolioState → Bool))) (s : PortfolioState)
      (verdict : Option NuclearReason)
      → t.1 s ≡ false
      → Decides ts s verdict
      → Decides (t ∷ ts) s verdict
  Decides-skip t ts s none quiet h = (quiet, h)
  Decides-skip t ts s (some reason) quiet (before, condition, after, e, none_before, fires) =
      (t ∷ before, condition, after, ap (λ l. t ∷ l) e, (quiet, none_before), fires)

  first_firing-Decides :
      (ts : List (NuclearReason × (PortfolioState → Bool))) (s : PortfolioState)
      → Decides ts s (first_firing ts s)
  unfolding first_firing
  first_firing-Decides [] s = tt
  first_firing-Decides ((reason, condition) ∷ ts) s = elim (Bool-cases (condition s)) [
    | inl fires ↦ rw fires ([], condition, ts, refl, tt, fires)
    | inr quiet ↦ rw quiet (
        Decides-skip (reason, condition) ts s (first_firing ts s) quiet (first_firing-Decides ts s))
  ]

  evaluate_triggers-open :
      (s : PortfolioState) → s.open_positions ≢ [] → evaluate_triggers s ≡ first_firing triggers s
  unfolding evaluate_triggers
  evaluate_triggers-open s h = ground arith

  evaluate_triggers-none : (s : PortfolioState) → s.open_positions ≡ [] → evaluate_triggers s ≡ none
  unfolding evaluate_triggers
  evaluate_triggers-none s h = ground arith

  -- Without open positions no reason is given; with open positions the reason is that of the first
  -- trigger in the list that fires, and there is none exactly when no trigger fires.
  pub evaluate_triggers-Decides :
      (s : PortfolioState)
      → ((s.open_positions ≡ []) × (evaluate_triggers s ≡ none))
        ⊎ ((s.open_positions ≢ []) × Decides triggers s (evaluate_triggers s))
  evaluate_triggers-Decides s = elim (List-cases s.open_positions) [
    | inl none_open ↦ inl (none_open, evaluate_triggers-none s none_open)
    | inr some_open ↦
        inr (some_open, rw (evaluate_triggers-open s some_open) (first_firing-Decides triggers s))
  ]
