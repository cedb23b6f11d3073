-- ===== src/Positions/Books.antt =====
-- The invariants of positions/registry.py and of the portfolio that it writes to, over any history.
use ghost_grid.Common.{
  Option, Float, ℕ, ◌≡◌, ap, sym, ◌∙◌, some, List, [], ◌∷◌, arith, if◌then◌else◌, ◌==◌, nat_eq,
  string_eq, Dict, lookup, insert, erase, contains, lookup-insert, lookup-erase_self, Option-cases,
  Bool-cases, inl, inr, subst, some-injective, Floats, Float,
}
use ghost_grid.Config.{Mode}
use ghost_grid.Positions.Models.{Snapshot}
use ghost_grid.Positions.Machine.{on_tick, Machine}
use ghost_grid.Positions.Exits.{IsValid, on_tick-IsValid}
use ghost_grid.Portfolio.State.{
  Machines, add_position, remove_position, record_close, update_unrealized,
}
use ghost_grid.Positions.Registry.{Books, register, deregister, tick_one, tick_all, process_tick}

module _ ⦃F : Floats⦄ where
  -- The registry and the portfolio hold the same references under the same ids.
  abbrev pub IsCoherent : Books → Type 0
  IsCoherent (registry, portfolio) = registry.positions ≡ portfolio.open_positions

  -- The operations on the books, as a history.
  pub data Operation : Type 0 where
    registered : ℕ → Machine → Operation
    deregistered : ℕ → Float → Operation
    ticked : Snapshot → Operation

  -- An operation on the heap and the books. A registration allocates its reference.
  unfoldable pub apply : Machines × Books → Operation → Machines × Books
  apply (heap, books) (registered ref m) = (insert ref m heap, register ref m books)
  apply (heap, books) (deregistered position_id pnl) = (heap, deregister position_id pnl books)
  apply (heap, books) (ticked snap) =
      let (heap', books', _) = process_tick heap books snap in (heap', books')

  unfoldable pub apply_all : Machines × Books → List Operation → Machines × Books
  apply_all w [] = w
  apply_all w (op ∷ ops) = apply_all (apply w op) ops

  apply-IsCoherent :
      (w : Machines × Books) (op : Operation) → IsCoherent w.1 → IsCoherent (apply w op).1
  unfolding apply register deregister process_tick add_position remove_position record_close
      update_unrealized
  apply-IsCoherent (heap, (registry, portfolio)) (registered ref m) h =
      ap (insert m.position_id ref) h
  apply-IsCoherent (heap, (registry, portfolio)) (deregistered position_id pnl) h =
      elim (Bool-cases (contains position_id registry.positions)) [
        | inl there ↦ rw there (ap (erase position_id) h)
        | inr missing ↦ rw missing h
      ]
  apply-IsCoherent (heap, (registry, portfolio)) (ticked snap) h = h

  -- After any sequence of registrations, removals and ticks the registry and the portfolio map the
  -- same ids to the same machines, if they did before.
  pub apply_all-IsCoherent :
      (ops : List Operation) (w : Machines × Books)
      → IsCoherent w.1
      → IsCoherent (apply_all w ops).1
  unfolding apply_all
  apply_all-IsCoherent [] w h = h
  apply_all-IsCoherent (op ∷ ops) w h =
      apply_all-IsCoherent ops (apply w op) (apply-IsCoherent w op h)

  -- Every machine of the heap satisfies a predicate.
  abbrev pub AllOf : (Machine → Type 0) → Machines → Type 0
  AllOf P heap = (r : ℕ) (m : Machine) → lookup r heap ≡ some m → P m

  -- A predicate that every tick of a machine keeps.
  abbrev pub Keeps : (Machine → Type 0) → Type 0
  Keeps P =
      (m : Machine) (price : Float) (snap : Snapshot) (mode : Option Mode)
      → P m
      → P (on_tick m price snap mode).0

  lookup-inserted :
      (heap : Machines) (ref r : ℕ) (m m' : Machine)
      → lookup r (insert ref m heap) ≡ some m'
      → (if ref == r then some m else lookup r heap) ≡ some m'
  lookup-inserted heap ref r m m' e = sym (lookup-insert r ref m heap) ∙ e

  insert-AllOf :
      (P : Machine → Type 0) (heap : Machines) (ref : ℕ) (m : Machine)
      → AllOf P heap
      → P m
      → AllOf P (insert ref m heap)
  insert-AllOf P heap ref m all v r m' e = elim (Bool-cases (ref == r)) [
    | inl same ↦ subst P (some-injective m m' (rw same at (lookup-inserted heap ref r m m' e))) v
    | inr other ↦ all r m' (rw other at (lookup-inserted heap ref r m m' e))
  ]

  module _ (P : Machine → Type 0) (keeps : Keeps P) where
    tick_one-AllOf :
        (heap : Machines) (position_id ref : ℕ) (snap : Snapshot) (mode : Mode)
        → AllOf P heap
        → AllOf P (tick_one heap position_id ref snap mode).0
    unfolding tick_one
    tick_one-AllOf heap position_id ref snap mode all = elim (Option-cases (lookup ref heap)) [
      | inl dangling ↦ rw (dangling, tick_one) all
      | inr (m, e) ↦
          rw (e, tick_one)
            (insert-AllOf P heap ref _ all (keeps m snap.mid snap (some mode) (all ref m e)))
    ]

    pub tick_all-AllOf :
        (refs : Dict ℕ ℕ) (heap : Machines) (snap : Snapshot) (mode : Mode)
        → AllOf P heap
        → AllOf P (tick_all heap refs snap mode).0
    unfolding tick_all
    tick_all-AllOf [] heap snap mode all = all
    tick_all-AllOf ((position_id, ref) ∷ refs) heap snap mode all =
        tick_all-AllOf refs (tick_one heap position_id ref snap mode).0 snap mode
          (tick_one-AllOf heap position_id ref snap mode all)

  -- A tick of the registry keeps the invariant of every machine of the heap.
  pub process_tick-IsValid :
      (heap : Machines) (books : Books) (snap : Snapshot)
      → AllOf IsValid heap
      → AllOf IsValid (process_tick heap books snap).0
  unfolding process_tick
  process_tick-IsValid heap (registry, portfolio) snap all =
      tick_all-AllOf IsValid on_tick-IsValid registry.positions heap snap portfolio.current_mode all

  -- Removing a position from the registry a second time, with any profit, changes nothing.
  pub deregister_twice :
      (position_id : ℕ) (pnl pnl' : Float) (books : Books)
      → deregister position_id pnl' (deregister position_id pnl books)
        ≡ deregister position_id pnl books
  unfolding deregister
  deregister_twice position_id pnl pnl' (registry, portfolio) =
      ground (arith, lookup-erase_self position_id registry.positions)
