-- ===== src/Positions/Rounds.antt =====
-- What one call of `process_tick` of positions/registry.py does to the machines, and what it returns.
use ghost_grid.Common.{
  ℕ, ◌≡◌, ◌∙◌, refl, sym, ap, Bool, true, false, ◌||◌, Option, none, some, List, [], ◌∷◌, ◌++◌,
  ◌==◌, if◌then◌else◌, nat_eq, string_eq, Dict, lookup, lookup-insert, Option-cases, Bool-cases,
  inl, inr, arith, Floats,
}
use ghost_grid.Config.{Mode}
use ghost_grid.Positions.Models.{Snapshot, ExitReason}
use ghost_grid.Positions.Machine.{Machine, Outcome, hold, raised, exits, on_tick}
use ghost_grid.Portfolio.State.{Machines}
use ghost_grid.Positions.Registry.{Books, exit_of, tick_one, tick_all, process_tick}

-- Whether a position has the reference.
unfoldable pub held : ℕ → Dict ℕ ℕ → Bool
held r [] = false
held r ((position_id, ref) ∷ rest) = (ref == r) || held r rest

-- No two positions have one machine.
abbrev pub IsOnce : Dict ℕ ℕ → Type 0
IsOnce [] = Unit
IsOnce ((position_id, ref) ∷ rest) = (held ref rest ≡ false) × IsOnce rest

module _ ⦃F : Floats⦄ where
  -- A machine after its own tick.
  abbrev pub ticked_once : Snapshot → Mode → Option Machine → Option Machine
  ticked_once snap mode none = none
  ticked_once snap mode (some m) = some (on_tick m snap.mid snap (some mode)).0

  -- What an outcome calls for.
  abbrev pub calls_for : ℕ → Outcome → List (ℕ × ExitReason)
  calls_for position_id (exits reason) = (position_id, reason) ∷ []
  calls_for position_id hold = []
  calls_for position_id raised = []

  abbrev pub exit_at : Snapshot → Mode → ℕ → Option Machine → List (ℕ × ExitReason)
  exit_at snap mode position_id none = []
  exit_at snap mode position_id (some m) =
      calls_for position_id (on_tick m snap.mid snap (some mode)).1

  -- The exits that the machines call for, each as it was before the call, in the order of the registry.
  abbrev pub exits_in : Machines → Snapshot → Mode → Dict ℕ ℕ → List (ℕ × ExitReason)
  exits_in heap snap mode [] = []
  exits_in heap snap mode ((position_id, ref) ∷ rest) =
      exit_at snap mode position_id (lookup ref heap) ++ exits_in heap snap mode rest

  calls_for-exit : (position_id : ℕ) (o : Outcome) → exit_of position_id o ≡ calls_for position_id o
  calls_for-exit position_id hold = refl
  calls_for-exit position_id raised = refl
  calls_for-exit position_id (exits r) = refl

  same_machine :
      (heap : Machines) (ref r : ℕ) (o : Option Machine)
      → (ref == r) ≡ true
      → lookup ref heap ≡ o
      → lookup r heap ≡ o
  same_machine heap ref r o same e =
      ap (λ (k : ℕ). lookup k heap) (sym ((nat_eq.same_key_iff ref r).0 same)) ∙ e

  tick_one-lookup :
      (heap : Machines) (position_id ref : ℕ) (snap : Snapshot) (mode : Mode) (r : ℕ)
      → lookup r (tick_one heap position_id ref snap mode).0
        ≡ (if ref == r then ticked_once snap mode (lookup r heap) else lookup r heap)
  unfolding tick_one
  tick_one-lookup heap position_id ref snap mode r = elim (Option-cases (lookup ref heap)) [
    | inl dangling ↦
        rw (dangling, tick_one)
          (elim (Bool-cases (ref == r)) [
            | inl same ↦ rw (same, same_machine heap ref r none same dangling) refl
            | inr other ↦ rw other refl
          ])
    | inr (m, e) ↦
        rw (e, tick_one)
          (lookup-insert r ref _ heap ∙ elim (Bool-cases (ref == r)) [
            | inl same ↦ rw (same, same_machine heap ref r (some m) same e) refl
            | inr other ↦ rw other refl
          ])
  ]

  tick_one-exits :
      (heap : Machines) (position_id ref : ℕ) (snap : Snapshot) (mode : Mode)
      → (tick_one heap position_id ref snap mode).1
        ≡ exit_at snap mode position_id (lookup ref heap)
  unfolding tick_one
  tick_one-exits heap position_id ref snap mode = elim (Option-cases (lookup ref heap)) [
    | inl dangling ↦ rw (dangling, tick_one) refl
    | inr (m, e) ↦ rw (e, tick_one) (calls_for-exit position_id _)
  ]

  -- Ticking a machine leaves the exits of positions with other machines as they were.
  others-kept :
      (heap : Machines) (position_id ref : ℕ) (snap : Snapshot) (mode : Mode) (rest : Dict ℕ ℕ)
      → held ref rest ≡ false
      → exits_in (tick_one heap position_id ref snap mode).0 snap mode rest
        ≡ exits_in heap snap mode rest
  unfolding held
  others-kept heap position_id ref snap mode [] h = refl
  others-kept heap position_id ref snap mode ((j, s) ∷ rest) h =
      let other : (ref == s) ≡ false = ground arith in
      let kept : lookup s (tick_one heap position_id ref snap mode).0 ≡ lookup s heap =
        tick_one-lookup heap position_id ref snap mode s ∙ rw other refl in
      cc (kept, others-kept heap position_id ref snap mode rest (ground arith))

  -- One step, then the others, where no machine has its step twice.
  stepwise {ℓ} :
      {A : Type ℓ} (f : A → A) (now later : Bool) (x x' : A)
      → (now ≡ true → later ≡ false)
      → x' ≡ (if now then f x else x)
      → (if later then f x' else x') ≡ (if now || later then f x else x)
  stepwise f true true x x' once e = absurd (ground (arith, once refl))
  stepwise f true false x x' once e = e
  stepwise f false true x x' once e = ap f e
  stepwise f false false x x' once e = e

  tick_all-rounds :
      (refs : Dict ℕ ℕ) (heap : Machines) (snap : Snapshot) (mode : Mode)
      → IsOnce refs
      → let (heap', found) = tick_all heap refs snap mode in
        (found ≡ exits_in heap snap mode refs)
        × ((r : ℕ)
            → lookup r heap'
              ≡ (if held r refs then ticked_once snap mode (lookup r heap) else lookup r heap))
  unfolding tick_all held
  tick_all-rounds [] heap snap mode once = (refl, λ r. refl)
  tick_all-rounds ((position_id, ref) ∷ refs) heap snap mode once =
      let heap' : Machines = (tick_one heap position_id ref snap mode).0 in
      let (found, each) = tick_all-rounds refs heap' snap mode once.1 in
      (
        cc (
          tick_one-exits heap position_id ref snap mode,
          found,
          others-kept heap position_id ref snap mode refs once.0,
        ),
        λ r.
            each r
            ∙ stepwise (ticked_once snap mode) (ref == r) (held r refs) (lookup r heap)
                (lookup r heap')
                (λ same.
                  ap (λ (k : ℕ). held k refs) (sym ((nat_eq.same_key_iff ref r).0 same)) ∙ once.0)
                (tick_one-lookup heap position_id ref snap mode r),
      )

  -- Where no two positions of the registry have one machine, a tick of the registry returns, in its
  -- order, the exits that the machines call for, each as it was before; it ticks the machine of
  -- every position once, and leaves the other machines and the registry as they were.
  pub process_tick-exits :
      (heap : Machines) (books : Books) (snap : Snapshot)
      → IsOnce books.0.positions
      → let (heap', books', found) = process_tick heap books snap in
        let mode = books.1.current_mode in
        (found ≡ exits_in heap snap mode books.0.positions)
        × ((r : ℕ)
            → lookup r heap' ≡ (
                if held r books.0.positions
                then ticked_once snap mode (lookup r heap)
                else lookup r heap))
        × (books'.0 ≡ books.0)
  unfolding process_tick
  process_tick-exits heap (registry, portfolio) snap once =
      let (same, each) = tick_all-rounds registry.positions heap snap portfolio.current_mode once in
      (same, each, refl)
