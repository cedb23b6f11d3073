-- ===== src/Risk/Watchdog.antt =====
-- watchdog/thread.py and watchdog/emergency.py: one poll of the watchdog, and what it agrees on with
-- the risk governor.
use ghost_grid.Common.{
  ◌≡◌, Bool, false, ◌≢◌, Bool-cases, inl, inr, Option, none, some, List, [], ◌∷◌, arith,
  if◌then◌else◌, Floats, ◌≤?◌, lit, neg, mul,
}
use ghost_grid.Portfolio.State.{FrozenSnapshot}
use ghost_grid.Risk.Validator.{ProposedOrder, PortfolioSnapshot, validate, validate-approved}

-- What a poll does: write NUCLEAR_ALL to the pipe, or call the halt handler.
pub data Action : Type 0 where
  emergency_nuclear_write halt_trading : Action

module _ ⦃F : Floats⦄ where
  pub record WatchdogThread : Type 0 where
    pub get_snap : Option FrozenSnapshot
    pub has_halt_handler : Bool

  unfoldable pub poll : WatchdogThread → List Action
  poll w = elim w.get_snap [
    | none ↦ []
    | some snap ↦
        if snap.daily_pnl ≤? neg (mul snap.net_equity (lit 4 2))
        then emergency_nuclear_write ∷ []
        else if mul snap.net_equity (lit 15 2) ≤? snap.daily_pnl
        then if w.has_halt_handler then halt_trading ∷ [] else []
        else []
  ]

  -- Where the watchdog's poll acts on a snapshot, the governor approves no order on a portfolio of
  -- the same equity and the same profit of the day.
  pub poll-validate :
      (w : WatchdogThread) (snap : FrozenSnapshot) (order : ProposedOrder) (p : PortfolioSnapshot)
      → w.get_snap ≡ some snap
      → p.net_equity ≡ snap.net_equity
      → p.daily_pnl ≡ snap.daily_pnl
      → poll w ≢ []
      → (validate order p).approved ≡ false
  unfolding poll
  poll-validate w snap order p e equity pnl acts = elim (Bool-cases (validate order p).approved) [
    | inr no_order ↦ no_order
    | inl order_approved ↦
        let passes = ((validate-approved order p).0.0 order_approved).0 in
        absurd (acts (quiet passes.below_gain passes.above_loss))
  ]
    where
      quiet :
          (mul p.net_equity (lit 15 2) ≤? p.daily_pnl) ≡ false
          → (p.daily_pnl ≤? neg (mul p.net_equity (lit 4 2))) ≡ false
          → poll w ≡ []
      quiet gain loss = ground arith
