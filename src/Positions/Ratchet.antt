-- ===== src/Positions/Ratchet.antt =====
-- The trailing stop of positions/trail_manager.py as a ratchet.
use ghost_grid.Common.{
  ◌≡◌, inl, inr, true, false, Option, none, some, List, [], ◌∷◌, arith, if◌then◌else◌, Floats,
  Float, ◌≤?◌, lte_refl, Option-cases, subst, some-injective,
}
use ghost_grid.Config.{Direction, long, short, Mode}
use ghost_grid.Positions.Trail.{
  TrailManager, update, is_armed, proposed, improves, compute_trail_distance,
}

module _ ⦃F : Floats⦄ where
  -- The second stop is at the first or on its favourable side.
  abbrev pub AtLeast : Direction → Float → Float → Type 0
  AtLeast long old new = (old ≤? new) ≡ true
  AtLeast short old new = (new ≤? old) ≡ true

  pub AtLeast-refl : (d : Direction) (a : Float) → AtLeast d a a
  AtLeast-refl long a = lte_refl a
  AtLeast-refl short a = lte_refl a

  pub AtLeast-trans :
      (d : Direction) (a b c : Float) → AtLeast d a b → AtLeast d b c → AtLeast d a c
  AtLeast-trans long a b c p q = F.lte-trans a b c p q
  AtLeast-trans short a b c p q = F.lte-trans c b a q p

  AtLeast-improves : (d : Direction) (a b : Float) → improves d a b ≡ true → AtLeast d a b
  AtLeast-improves long a b h = ground (arith, F.lte-total b a)
  AtLeast-improves short a b h = ground (arith, F.lte-total a b)

  AtLeast-proposed : (d : Direction) (a b : Float) → improves d a b ≡ false → AtLeast d b a
  AtLeast-proposed long a b h = ground (arith)
  AtLeast-proposed short a b h = ground (arith)

  -- Updates at a sequence of prices, ranges and modes; none is an exception on the way.
  unfoldable pub updates : TrailManager → List (Float × Float × Option Mode) → Option TrailManager
  updates t [] = some t
  updates t ((price, atr, mode) ∷ ticks) = elim (update t price atr mode) [
    | none ↦ none
    | some (t', _) ↦ updates t' ticks
  ]

  -- The better of two stops.
  abbrev pub best : Direction → Float → Float → Float
  best d old new = if improves d old new then new else old

  AtLeast-best : (d : Direction) (a b : Float) → AtLeast d a (best d a b) × AtLeast d b (best d a b)
  AtLeast-best long a b = ground (arith, lte_refl a, lte_refl b, F.lte-total b a)
  AtLeast-best short a b = ground (arith, lte_refl a, lte_refl b, F.lte-total a b)

  -- An update of an armed trail writes the better of the old stop and the proposed one.
  update-best :
      (t : TrailManager) (old price atr dist : Float) (mode : Option Mode)
      → t.trail_stop ≡ some old
      → compute_trail_distance t.symbol atr mode ≡ some dist
      → let stop = proposed t.direction price dist in
        update t price atr mode
        ≡ some (
          record t { trail_stop = some (best t.direction old stop) },
          if improves t.direction old stop then some stop else none,
        )
  unfolding update
  update-best t old price atr dist mode e c = ground arith

  update-raises :
      (t : TrailManager) (old price atr : Float) (mode : Option Mode)
      → t.trail_stop ≡ some old
      → compute_trail_distance t.symbol atr mode ≡ none
      → update t price atr mode ≡ none
  unfolding update
  update-raises t old price atr mode e c = ground arith

  -- The stop of the second trail is at least as favourable as `old`, and the direction is `d`.
  abbrev pub Holds : Direction → Float → TrailManager → Type 0
  Holds d old t = (new : Float) × (t.trail_stop ≡ some new) × (t.direction ≡ d) × AtLeast d old new

  pub update-Holds :
      (d : Direction) (old price atr : Float) (mode : Option Mode) (t t' : TrailManager)
      (moved : Option Float)
      → Holds d old t
      → update t price atr mode ≡ some (t', moved)
      → Holds d old t'
  update-Holds d old price atr mode t t' moved (now, e, same, up) h =
      elim (Option-cases (compute_trail_distance t.symbol atr mode)) [
        | inl bad ↦ cc (update-raises t now price atr mode e bad)
        | inr (dist, good) ↦
            let stop = proposed t.direction price dist in
            let both = AtLeast-best t.direction now stop in
            (
              best t.direction now stop,
              ground (arith, update-best t now price atr dist mode e good),
              ground (arith, update-best t now price atr dist mode e good),
              AtLeast-trans d old now (best t.direction now stop) up
                  (subst (λ k. AtLeast k now (best t.direction now stop)) same both.0),
            )
      ]

  -- Over any sequence of updates that does not raise, an armed trail keeps its direction and its
  -- stop never becomes less favourable.
  pub updates-Holds :
      (d : Direction) (old : Float) (ticks : List (Float × Float × Option Mode))
      (t t' : TrailManager)
      → Holds d old t
      → updates t ticks ≡ some t'
      → Holds d old t'
  unfolding updates
  updates-Holds d old [] t t' h e = subst (Holds d old) (some-injective t t' e) h
  updates-Holds d old ((price, atr, mode) ∷ ticks) t t' h e =
      elim (Option-cases (update t price atr mode)) [
        | inl bad ↦ cc (rw (bad, updates) at e)
        | inr ((u, moved), good) ↦
            updates-Holds d old ticks u t' (update-Holds d old price atr mode t u moved h good)
              (rw (good, updates) at e)
      ]

  -- An update changes nothing but the stop, and neither arms nor disarms the trail.
  pub update_keeps :
      (t t' : TrailManager) (price atr : Float) (mode : Option Mode) {moved : Option Float}
      → update t price atr mode ≡ some (t', moved)
      → (t'.direction ≡ t.direction) × (t'.symbol ≡ t.symbol) × (is_armed t' ≡ is_armed t)
  unfolding update
  update_keeps t t' price atr mode h = ground arith
