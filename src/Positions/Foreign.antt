-- ===== src/Positions/Foreign.antt =====
-- What a tick of one symbol does to the positions of the others, in positions/registry.py.
use ghost_grid.Common.{
  sym, ◌∙◌, ℕ, ◌≡◌, ◌≢◌, refl, ap, String, Option, none, some, List, [], ◌∷◌, arith, nat_eq,
  string_eq, Dict, lookup, values, Option-cases, inl, inr, Floats, Float, fmax, zero_f,
}
use text.Mathlib.TextEquality.{eq_iff}
use ghost_grid.Config.{Mode, Direction}
use ghost_grid.Positions.Models.{Snapshot, PositionState, open_unrealized, open_trailing}
use ghost_grid.Positions.Cvd.{check_cvd_exit}
use ghost_grid.Positions.Machine.{
  Machine, calc_pnl, on_tick, layers, by_state, unrealized_layer, trailing_layers,
}
use ghost_grid.Portfolio.State.{Machines, update_unrealized, unrealized_from}
use ghost_grid.Positions.Registry.{Books, tick_one, tick_all, process_tick}
use ghost_grid.Positions.Machine.{close}
use ghost_grid.Positions.Books.{AllOf, tick_all-AllOf}

module _ ⦃F : Floats⦄ where
  abbrev renamed : Snapshot → String → Snapshot
  renamed snap symbol = record snap { symbol = symbol }

  by_state-renamed :
      (state : PositionState) (m : Machine) (price pnl : Float) (snap : Snapshot) (symbol : String)
      (mode : Option Mode)
      → by_state state m pnl price (renamed snap symbol) mode ≡ by_state state m pnl price snap mode
  unfolding by_state unrealized_layer trailing_layers
  by_state-renamed open_unrealized m price pnl snap symbol mode = refl
  by_state-renamed open_trailing m price pnl snap symbol mode = refl
  by_state-renamed _ m price pnl snap symbol mode = refl

  check_cvd_exit-renamed :
      (snap : Snapshot) (symbol : String) (d : Direction)
      → check_cvd_exit (renamed snap symbol) d ≡ check_cvd_exit snap d
  unfolding check_cvd_exit
  check_cvd_exit-renamed snap symbol d = refl

  layers-renamed :
      (m : Machine) (price pnl : Float) (snap : Snapshot) (symbol : String) (mode : Option Mode)
      → layers m pnl price (renamed snap symbol) mode ≡ layers m pnl price snap mode
  unfolding layers
  layers-renamed m price pnl snap symbol mode = ground (
    arith,
    check_cvd_exit-renamed snap symbol m.direction,
    by_state-renamed m.state m price pnl snap symbol mode,
  )

  on_tick-renamed :
      (m : Machine) (price : Float) (snap : Snapshot) (symbol : String) (mode : Option Mode)
      → on_tick m price (renamed snap symbol) mode ≡ on_tick m price snap mode
  unfolding on_tick
  on_tick-renamed m price snap symbol mode = elim (Option-cases (calc_pnl m price)) [
    | inl bad ↦ rw (bad, on_tick) refl
    | inr (pnl, good) ↦
        rw (good, on_tick)
          (layers-renamed (record m { max_profit = fmax m.max_profit pnl }) price pnl snap symbol
            mode)
  ]

  tick_one-renamed :
      (heap : Machines) (position_id ref : ℕ) (snap : Snapshot) (symbol : String) (mode : Mode)
      → tick_one heap position_id ref (renamed snap symbol) mode
        ≡ tick_one heap position_id ref snap mode
  unfolding tick_one
  tick_one-renamed heap position_id ref snap symbol mode = elim (Option-cases (lookup ref heap)) [
    | inl dangling ↦ rw (dangling, tick_one) refl
    | inr (m, e) ↦ rw (e, tick_one) (rw (on_tick-renamed m snap.mid snap symbol (some mode)) refl)
  ]

  tick_all-renamed :
      (refs : Dict ℕ ℕ) (heap : Machines) (snap : Snapshot) (symbol : String) (mode : Mode)
      → tick_all heap refs (renamed snap symbol) mode ≡ tick_all heap refs snap mode
  unfolding tick_all
  tick_all-renamed [] heap snap symbol mode = refl
  tick_all-renamed ((position_id, ref) ∷ refs) heap snap symbol mode =
      rw (tick_one-renamed heap position_id ref snap symbol mode) (
        rw (tick_all-renamed refs (tick_one heap position_id ref snap mode).0 snap symbol mode)
          refl)

  -- The machines after a tick and the exits that it finds do not depend on the symbol that the tick
  -- is about.
  pub process_tick-renamed :
      (heap : Machines) (books : Books) (snap : Snapshot) (symbol : String)
      → ((process_tick heap books (record snap { symbol = symbol })).0
          ≡ (process_tick heap books snap).0)
        × ((process_tick heap books (record snap { symbol = symbol })).2
            ≡ (process_tick heap books snap).2)
  unfolding process_tick
  process_tick-renamed heap (registry, portfolio) snap symbol =
      let same = tick_all-renamed registry.positions heap snap symbol portfolio.current_mode in
      (ap (λ r. r.0) same, ap (λ r. r.1) same)

  unknown_price :
      (k symbol : String) (price : Float) → k ≢ symbol → lookup k ((symbol, price) ∷ []) ≡ none
  unfolding lookup
  unknown_price k symbol price ne = ground (arith, eq_iff symbol k)

  foreign_unrealized :
      (refs : List ℕ) (heap : Machines) (symbol : String) (price total : Float)
      → ((r : ℕ) (m : Machine) → lookup r heap ≡ some m → m.symbol ≢ symbol)
      → unrealized_from heap ((symbol, price) ∷ []) total refs ≡ total
  unfolding unrealized_from
  foreign_unrealized [] heap symbol price total h = refl
  foreign_unrealized (r ∷ refs) heap symbol price total h = elim (Option-cases (lookup r heap)) [
    | inl dangling ↦ rw (dangling) (foreign_unrealized refs heap symbol price total h)
    | inr (m, e) ↦
        rw (e, unknown_price m.symbol symbol price (h r m e))
          (foreign_unrealized refs heap symbol price total h)
  ]

  abbrev pub IsForeign : String → Machine → Type 0
  IsForeign symbol m = m.symbol ≢ symbol

  on_tick-symbol :
      (m : Machine) (price : Float) (snap : Snapshot) (mode : Option Mode)
      → (on_tick m price snap mode).0.symbol ≡ m.symbol
  unfolding on_tick layers by_state unrealized_layer trailing_layers close
  on_tick-symbol m price snap mode = ground arith

  -- A tick of a symbol in which no machine of the heap trades leaves an unrealised profit of zero.
  pub process_tick-foreign :
      (heap : Machines) (books : Books) (snap : Snapshot)
      → AllOf (IsForeign snap.symbol) heap
      → (process_tick heap books snap).1.1.unrealized_pnl ≡ zero_f
  unfolding process_tick update_unrealized
  process_tick-foreign heap (registry, portfolio) snap foreign =
      let kept =
        tick_all-AllOf (IsForeign snap.symbol)
          (λ m price snap' mode ne e. ne (sym (on_tick-symbol m price snap' mode) ∙ e))
          registry.positions heap snap portfolio.current_mode foreign in
      foreign_unrealized (values portfolio.open_positions) _ snap.symbol snap.mid zero_f kept
