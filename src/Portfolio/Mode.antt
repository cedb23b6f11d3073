-- ===== src/Portfolio/Mode.antt =====
-- portfolio/mode_automaton.py. The text of a reason is data, with the values that it shows.
use text.Mathlib.TextEquality.{eq_iff}
use ghost_grid.Common.{
  ℕ, ap, sym, ◌∙◌, ◌==◌, string_eq, ◌≤◌, ◌≡◌, ◌≢◌, ◌↔◌, refl, ◌⊎◌, inl, inr, Bool-cases, Bool, true,
  false, ◌&&◌, Option, some, arith, leb, if◌then◌else◌, Floats, Float, ◌≤?◌, ◌<?◌, lit,
}
use ghost_grid.Config.{
  Mode, scalp_normal, scalp_reduced, scalp_burst, daily_target, aggressive_compounding, other_mode,
  Regime, chop,
}
use ghost_grid.Portfolio.State.{PortfolioState}

abbrev is_chop : Regime → Bool
is_chop chop = true
is_chop _ = false

mode_eq : Mode → Mode → Bool
mode_eq scalp_normal scalp_normal = true
mode_eq scalp_reduced scalp_reduced = true
mode_eq scalp_burst scalp_burst = true
mode_eq daily_target daily_target = true
mode_eq aggressive_compounding aggressive_compounding = true
mode_eq (other_mode a) (other_mode b) = a == b
mode_eq _ _ = false

mode_eq_sound : (a b : Mode) → mode_eq a b ≡ true → a ≡ b
unfolding mode_eq
mode_eq_sound scalp_normal b h = ground arith
mode_eq_sound scalp_reduced b h = ground arith
mode_eq_sound scalp_burst b h = ground arith
mode_eq_sound daily_target b h = ground arith
mode_eq_sound aggressive_compounding b h = ground arith
mode_eq_sound (other_mode a) (other_mode b) h = ap other_mode ((eq_iff a b).0 h)
mode_eq_sound (other_mode a) _ h = cc

mode_eq_refl : (a : Mode) → mode_eq a a ≡ true
unfolding mode_eq
mode_eq_refl (other_mode a) = (eq_iff a a).1 refl
mode_eq_refl _ = refl

module _ ⦃F : Floats⦄ where
  pub data Reason : Type 0 where
    yesterday_halt conditions_clear : Reason
    nuclear_exits : ℕ → Reason
    drawdown low_win_rate : Float → Reason

  pub record ModeDecision : Type 0 where
    pub mode : Mode
    pub reason : Reason

  unfoldable pub select_mode : PortfolioState → Bool → Float → Float → Regime → ModeDecision
  select_mode s yesterday_loss_halt win_rate drawdown_pct regime =
      if yesterday_loss_halt
      then record { mode = scalp_reduced; reason = yesterday_halt }
      else if leb 2 s.nuclear_count_today
      then record { mode = scalp_reduced; reason = nuclear_exits s.nuclear_count_today }
      else if lit 12 2 <? drawdown_pct
      then record { mode = scalp_reduced; reason = drawdown drawdown_pct }
      else if is_chop regime && (win_rate <? lit 45 2)
      then record { mode = scalp_reduced; reason = low_win_rate win_rate }
      else record { mode = scalp_normal; reason = conditions_clear }

  -- The conditions that the module's documentation calls defensive.
  abbrev pub IsDefensive : PortfolioState → Bool → Float → Float → Regime → Type 0
  IsDefensive s yesterday_loss_halt win_rate drawdown_pct regime =
      ((yesterday_loss_halt ≡ true) ⊎ (2 ≤ s.nuclear_count_today))
      ⊎ (((drawdown_pct ≤? lit 12 2) ≡ false)
          ⊎ ((regime ≡ chop) × ((lit 45 2 ≤? win_rate) ≡ false)))

  pub select_mode-reduced :
      (s : PortfolioState) (halt : Bool) (win_rate drawdown_pct : Float) (regime : Regime)
      → ((select_mode s halt win_rate drawdown_pct regime).mode ≡ scalp_reduced)
        ↔ IsDefensive s halt win_rate drawdown_pct regime
  unfolding select_mode
  select_mode-reduced s halt win_rate drawdown_pct regime = (λ h. ground arith, λ h. ground arith)

  -- The wrapper's `_last_reason` and the portfolio that it was applied to.
  pub record ModeAutomaton : Type 0 where
    pub last_reason : Option Reason

  unfoldable pub apply_mode_decision :
      ModeAutomaton → PortfolioState → ModeDecision → ModeAutomaton × PortfolioState × Bool
  unfolding mode_eq
  apply_mode_decision a s d =
      if mode_eq s.current_mode d.mode
      then (record a { last_reason = some d.reason }, s, false)
      else (record a { last_reason = some d.reason }, record s { current_mode = d.mode }, true)

  unfoldable pub is_normal_mode : PortfolioState → Bool
  unfolding mode_eq
  is_normal_mode s = mode_eq s.current_mode scalp_normal

  unfoldable pub is_reduced_mode : PortfolioState → Bool
  unfolding mode_eq
  is_reduced_mode s = mode_eq s.current_mode scalp_reduced

  unfoldable pub get_mode_multiplier : PortfolioState → Float
  get_mode_multiplier s = if is_normal_mode s then lit 10 1 else lit 5 1

  unfoldable pub get_max_leverage : PortfolioState → ℕ
  get_max_leverage s = if is_normal_mode s then 30 else 15

  apply-current_mode :
      (a : ModeAutomaton) (s : PortfolioState) (d : ModeDecision)
      → (apply_mode_decision a s d).1.current_mode ≡ d.mode
  unfolding apply_mode_decision
  apply-current_mode a s d = elim (Bool-cases (mode_eq s.current_mode d.mode)) [
    | inl same ↦ rw same (mode_eq_sound s.current_mode d.mode same)
    | inr differs ↦ rw differs
  ]

  apply-changed :
      (a : ModeAutomaton) (s : PortfolioState) (d : ModeDecision)
      → ((apply_mode_decision a s d).2 ≡ true) ↔ (s.current_mode ≢ d.mode)
  unfolding apply_mode_decision
  apply-changed a s d = elim (Bool-cases (mode_eq s.current_mode d.mode)) [
    | inl same ↦ rw same (λ h. cc, λ h. absurd (h (mode_eq_sound s.current_mode d.mode same)))
    | inr differs ↦ rw differs (λ _ e. cc (rw e at differs, mode_eq_refl d.mode), λ _. refl)
  ]

  reduced_leverage : (s : PortfolioState) → s.current_mode ≡ scalp_reduced → get_max_leverage s ≡ 15
  unfolding get_max_leverage is_normal_mode mode_eq
  reduced_leverage s e = rw e

  normal_leverage : (s : PortfolioState) → s.current_mode ≡ scalp_normal → get_max_leverage s ≡ 30
  unfolding get_max_leverage is_normal_mode mode_eq
  normal_leverage s e = rw e

  max_leverage-mode :
      (s : PortfolioState) (mode : Mode) (D : Type 0)
      → s.current_mode ≡ mode
      → ((mode ≡ scalp_reduced) ↔ D)
      → (mode ≡ scalp_reduced) ⊎ (mode ≡ scalp_normal)
      → ((get_max_leverage s ≡ 15) ↔ D) × ((get_max_leverage s ≡ 30) ↔ (¬ D))
  max_leverage-mode s mode D e iff (inl reduced) =
      let fifteen = reduced_leverage s (e ∙ reduced) in
      (
        (λ _. iff.0 reduced, λ _. fifteen),
        (λ h. absurd (omega (arith, fifteen, h)), λ n. absurd (n (iff.0 reduced))),
      )
  max_leverage-mode s mode D e iff (inr normal) =
      let thirty = normal_leverage s (e ∙ normal) in
      (
        (λ h. absurd (omega (arith, thirty, h)), λ x. cc (sym (iff.1 x) ∙ normal)),
        (λ _ x. cc (sym (iff.1 x) ∙ normal), λ _. thirty),
      )

  select_mode-two :
      (s : PortfolioState) (halt : Bool) (win_rate drawdown_pct : Float) (regime : Regime)
      → let d = select_mode s halt win_rate drawdown_pct regime in
        (d.mode ≡ scalp_reduced) ⊎ (d.mode ≡ scalp_normal)
  unfolding select_mode
  select_mode-two s halt win_rate drawdown_pct regime = ground arith

  -- Selecting a mode and applying it puts the portfolio in that mode, reports a change exactly when
  -- the mode differs, and gives a leverage cap of 15 exactly when a defensive condition holds and of
  -- 30 exactly when none does.
  pub select-apply :
      (a : ModeAutomaton) (s : PortfolioState) (halt : Bool) (win_rate drawdown_pct : Float)
      (regime : Regime)
      → let d = select_mode s halt win_rate drawdown_pct regime in
        let (_, s', changed) = apply_mode_decision a s d in
        (s'.current_mode ≡ d.mode)
        × ((changed ≡ true) ↔ (s.current_mode ≢ s'.current_mode))
        × ((get_max_leverage s' ≡ 15) ↔ IsDefensive s halt win_rate drawdown_pct regime)
        × ((get_max_leverage s' ≡ 30) ↔ (¬ IsDefensive s halt win_rate drawdown_pct regime))
  select-apply a s halt win_rate drawdown_pct regime =
      let d = select_mode s halt win_rate drawdown_pct regime in
      let s' = (apply_mode_decision a s d).1 in
      let e = apply-current_mode a s d in
      let leverage =
        max_leverage-mode s' d.mode (IsDefensive s halt win_rate drawdown_pct regime) e
          (select_mode-reduced s halt win_rate drawdown_pct regime)
          (select_mode-two s halt win_rate drawdown_pct regime) in
      (e, rw e (apply-changed a s d), leverage.0, leverage.1)
