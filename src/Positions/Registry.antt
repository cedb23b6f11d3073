-- ===== src/Positions/Registry.antt =====
-- positions/registry.py. The machines live in a heap; the registry and the portfolio each map a
-- position to its reference, so that both see what a tick writes.
use ghost_grid.Common.{
  ℕ, Option, none, some, List, [], ◌∷◌, ◌++◌, length, if◌then◌else◌, nat_eq, string_eq, Dict,
  lookup, insert, erase, contains, values, Floats, Float, zero_f, add, sub, mul, div?, abs,
}
use ghost_grid.Config.{Mode}
use ghost_grid.Positions.Models.{ExitReason, Snapshot}
use ghost_grid.Positions.Machine.{Machine, Outcome, hold, raised, exits, on_tick}
use ghost_grid.Portfolio.State.{
  Machines, PortfolioState, add_position, remove_position, record_close, update_unrealized,
}

module _ ⦃F : Floats⦄ where
  pub record PositionRegistry : Type 0 where
    pub positions : Dict ℕ ℕ

  -- The registry and the portfolio after a call.
  abbrev pub Books : Type 0
  Books = PositionRegistry × PortfolioState

  -- `PositionRegistry.add_position`, with the reference of the new machine.
  unfoldable pub register : ℕ → Machine → Books → Books
  register ref m (registry, portfolio) = (
    record registry { positions = insert m.position_id ref registry.positions },
    add_position portfolio ref m,
  )

  unfoldable pub get_position : PositionRegistry → ℕ → Option ℕ
  get_position registry position_id = lookup position_id registry.positions

  unfoldable pub get_all_open : PositionRegistry → List ℕ
  get_all_open registry = values registry.positions

  unfoldable pub get_position_count : PositionRegistry → ℕ
  get_position_count registry = length registry.positions

  -- What an outcome adds to the list of exits: an exception adds nothing.
  abbrev pub exit_of : ℕ → Outcome → List (ℕ × ExitReason)
  exit_of position_id hold = []
  exit_of position_id raised = []
  exit_of position_id (exits r) = (position_id, r) ∷ []

  -- One round of the loop.
  unfoldable pub tick_one : Machines → ℕ → ℕ → Snapshot → Mode → Machines × List (ℕ × ExitReason)
  tick_one heap position_id ref snap mode = elim (lookup ref heap) [
    | none ↦ (heap, [])
    | some m ↦
        let (m', outcome) = on_tick m snap.mid snap (some mode) in
        (insert ref m' heap, exit_of position_id outcome)
  ]

  unfoldable pub tick_all : Machines → Dict ℕ ℕ → Snapshot → Mode → Machines × List (ℕ × ExitReason)
  tick_all heap [] snap mode = (heap, [])
  tick_all heap ((position_id, ref) ∷ rest) snap mode =
      let (heap', mine) = tick_one heap position_id ref snap mode in
      let (heap'', others) = tick_all heap' rest snap mode in (heap'', mine ++ others)

  unfoldable pub process_tick :
      Machines → Books → Snapshot → Machines × Books × List (ℕ × ExitReason)
  process_tick heap (registry, portfolio) snap =
      let (heap', found) = tick_all heap registry.positions snap portfolio.current_mode in
      (heap', (registry, update_unrealized heap' portfolio ((snap.symbol, snap.mid) ∷ [])), found)

  -- `PositionRegistry.remove_position`
  unfoldable pub deregister : ℕ → Float → Books → Books
  deregister position_id realized_pnl (registry, portfolio) =
      if contains position_id registry.positions
      then (
        record registry { positions = erase position_id registry.positions },
        record_close (remove_position portfolio position_id).0 realized_pnl,
      )
      else (registry, portfolio)

  risk_from : Machines → Float → List ℕ → Float
  risk_from heap total [] = total
  risk_from heap total (r ∷ refs) =
      risk_from heap
        (elim (lookup r heap) [
          | none ↦ total
          | some m ↦ elim (div? (mul m.lots (abs (sub m.entry m.hard_stop_price))) m.pip_size) [
            | none ↦ total
            | some lots_pips ↦ add total (mul lots_pips m.pip_value)
          ]
        ])
        refs

  unfoldable pub get_total_risk : Machines → PositionRegistry → Float
  unfolding risk_from
  get_total_risk heap registry = risk_from heap zero_f (values registry.positions)
