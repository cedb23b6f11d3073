-- ===== src/Risk/Validator.antt =====
-- risk/models.py, risk/validator.py and risk/governor.py. The text of a reason is data.
use ghost_grid.Common.{
  ℕ, ◌<◌, String, ◌≡◌, ◌≢◌, ◌↔◌, refl, subst, ap, Bool, true, false, not, Option, none, some, List,
  [], ◌∷◌, ◌++◌, All, arith, ltb, if◌then◌else◌, Floats, Float, ◌≤?◌, ◌<?◌, lit, zero_f, neg, add,
  sub, mul, div, abs,
}
use ghost_grid.Config.{Direction, Regime}
use ghost_grid.Risk.Sizer.{max_risk_per_trade, calculate_lot_size}

module _ ⦃F : Floats⦄ where
  pub record ProposedOrder : Type 0 where
    pub symbol : String
    pub direction : Direction
    pub entry_price : Float
    pub stop_loss : Float
    pub atr_5m : Float
    pub spread_pct : Float
    pub hc_score : ℕ
    pub regime : Regime
    pub session : String

  unfoldable pub pip_risk : ProposedOrder → Float
  pip_risk o = abs (sub o.entry_price o.stop_loss)

  unfoldable pub rr_ratio : ProposedOrder → Float
  rr_ratio o = if zero_f <? pip_risk o then div o.atr_5m (pip_risk o) else zero_f

  pub record PortfolioSnapshot : Type 0 where
    pub net_equity : Float
    pub starting_equity : Float
    pub daily_pnl : Float
    pub open_position_count : ℕ
    pub total_basket_risk : Float
    pub margin_utilisation : Float
    pub day_locked : Bool

  pub data Reason : Type 0 where
    day_locked_reason daily_gain daily_loss concurrent basket_risk rr_low spread margin : Reason
    internal_error : Reason

  pub record ValidationResult : Type 0 where
    pub approved : Bool
    pub reason : Option Reason
    pub lot_size : Option Float

  -- The list `checks`, in its order.
  unfoldable pub checks : ProposedOrder → PortfolioSnapshot → List (Bool × Reason)
  checks order p =
      (not p.day_locked, day_locked_reason)
      ∷ (p.daily_pnl <? mul p.net_equity (lit 15 2), daily_gain)
      ∷ (neg (mul p.net_equity (lit 4 2)) <? p.daily_pnl, daily_loss)
      ∷ (ltb p.open_position_count 5, concurrent)
      ∷ (
        add p.total_basket_risk (mul p.net_equity max_risk_per_trade) ≤? mul p.net_equity (lit 5 2),
        basket_risk,
      )
      ∷ (lit 15 1 ≤? rr_ratio order, rr_low)
      ∷ (order.spread_pct <? lit 12 4, spread)
      ∷ (p.margin_utilisation <? lit 80 2, margin)
      ∷ []

  -- The loop over the checks: the reason of the first one that fails.
  unfoldable pub first_failure : List (Bool × Reason) → Option Reason
  first_failure [] = none
  first_failure ((condition, reason) ∷ rest) =
      let later = first_failure rest in if condition then later else some reason

  abbrev pub rejected : Reason → ValidationResult
  rejected reason = record { approved = false; reason = some reason; lot_size = none }

  -- none is an exception of the sizing.
  unfoldable pub validate_order : ProposedOrder → PortfolioSnapshot → Option ValidationResult
  validate_order order p = elim (first_failure (checks order p)) [
    | some reason ↦ some (rejected reason)
    | none ↦ elim (calculate_lot_size order.symbol p.net_equity order.entry_price order.stop_loss) [
      | none ↦ none
      | some lots ↦ some (record { approved = true; reason = none; lot_size = some lots })
    ]
  ]

  -- `RiskGovernor.validate`
  unfoldable pub validate : ProposedOrder → PortfolioSnapshot → ValidationResult
  validate order p = elim (validate_order order p) [ none ↦ rejected internal_error | some r ↦ r ]

  -- The eight conditions of the governor's documentation.
  pub record Passes (order : ProposedOrder) (p : PortfolioSnapshot) : Type 0 where
    pub unlocked : p.day_locked ≡ false
    pub below_gain : (mul p.net_equity (lit 15 2) ≤? p.daily_pnl) ≡ false
    pub above_loss : (p.daily_pnl ≤? neg (mul p.net_equity (lit 4 2))) ≡ false
    pub capacity : p.open_position_count < 5
    pub heat :
        (add p.total_basket_risk (mul p.net_equity max_risk_per_trade)
          ≤? mul p.net_equity (lit 5 2))
        ≡ true
    pub reward : (lit 15 1 ≤? rr_ratio order) ≡ true
    pub tight : (lit 12 4 ≤? order.spread_pct) ≡ false
    pub free_margin : (lit 80 2 ≤? p.margin_utilisation) ≡ false

  first_failure-Passes :
      (order : ProposedOrder) (p : PortfolioSnapshot)
      → (first_failure (checks order p) ≡ none) ↔ Passes order p
  unfolding checks first_failure
  first_failure-Passes order p = (λ h. ground arith, λ h. ground arith)

  -- The governor approves an order exactly when all eight conditions hold and a lot size can be
  -- computed; the result carries that lot size if it is an approval, and none otherwise.
  pub validate-approved :
      (order : ProposedOrder) (p : PortfolioSnapshot)
      → let lots = calculate_lot_size order.symbol p.net_equity order.entry_price order.stop_loss in
        (((validate order p).approved ≡ true) ↔ (Passes order p × (lots ≢ none)))
        × ((validate order p).lot_size ≡ (if (validate order p).approved then lots else none))
  unfolding validate validate_order
  validate-approved order p = (
    (
      λ h. ((first_failure-Passes order p).0 (ground arith), λ e. ground arith),
      λ h. approves h.0 h.1,
    ),
    ground arith,
  )
    where
      approves :
          Passes order p
          → calculate_lot_size order.symbol p.net_equity order.entry_price order.stop_loss ≢ none
          → (validate order p).approved ≡ true
      approves passes sized = ground (arith, (first_failure-Passes order p).1 passes)

  -- What a verdict on a list of checks means: the first one that fails, after ones that pass.
  abbrev pub Decides : List (Bool × Reason) → Option Reason → Type 0
  Decides cs none = All (λ c. c.0 ≡ true) cs
  Decides cs (some reason) =
      (before : List (Bool × Reason)) × (after : List (Bool × Reason)) × (cs
        ≡ before ++ (false, reason) ∷ after)
      × All (λ c. c.0 ≡ true) before

  Decides-skip :
      (reason : Reason) (cs : List (Bool × Reason)) (verdict : Option Reason)
      → Decides cs verdict
      → Decides ((true, reason) ∷ cs) verdict
  Decides-skip reason cs none h = (refl, h)
  Decides-skip reason cs (some r) (before, after, e, passed) =
      ((true, reason) ∷ before, after, ap (λ l. (true, reason) ∷ l) e, (refl, passed))

  first_failure-Decides : (cs : List (Bool × Reason)) → Decides cs (first_failure cs)
  unfolding first_failure
  first_failure-Decides [] = tt
  first_failure-Decides ((true, reason) ∷ cs) =
      Decides-skip reason cs (first_failure cs) (first_failure-Decides cs)
  first_failure-Decides ((false, reason) ∷ cs) = ([], cs, refl, tt)

  rejected_first :
      (order : ProposedOrder) (p : PortfolioSnapshot) (reason : Reason)
      → (validate order p).reason ≡ some reason
      → reason ≢ internal_error
      → first_failure (checks order p) ≡ some reason
  unfolding validate validate_order
  rejected_first order p reason h other = ground arith

  -- A rejection other than an internal error names the first check of the chain that fails, after
  -- checks that pass.
  pub validate-Decides :
      (order : ProposedOrder) (p : PortfolioSnapshot) (reason : Reason)
      → (validate order p).reason ≡ some reason
      → reason ≢ internal_error
      → Decides (checks order p) (some reason)
  validate-Decides order p reason h other =
      subst (Decides (checks order p)) (rejected_first order p reason h other)
        (first_failure-Decides (checks order p))
