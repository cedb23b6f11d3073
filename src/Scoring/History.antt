-- ===== src/Scoring/History.antt =====
-- The gate of scoring/gate.py against the history of the scores that it has seen, newest first.
use ghost_grid.Common.{
  ℕ, suc, ◌+◌, ◌-◌, ◌≤◌, ◌<◌, ◌≡◌, ◌≢◌, ◌↔◌, refl, ap, sym, ◌∙◌, String, List, [], ◌∷◌, arith,
  if◌then◌else◌, ◌==◌, string_eq, nat_eq, Dict, lookup, insert, erase, lookup-insert, lookup-erase,
  ==_refl,
}
use text.Mathlib.TextEquality.{eq_iff}
use ghost_grid.Scoring.Gate.{
  full_auto, full_auto_strong, ConfluenceScore, ConfluenceGate, threshold_of, above_threshold,
  empty_gate, count_of, count_cycle, decide, evaluate, reset,
}

-- What the gate has been given.
pub data Input : Type 0 where
  scored : ConfluenceScore → Input
  was_reset : String → Input

unfoldable pub step : ConfluenceGate → Input → ConfluenceGate
step g (scored s) = (evaluate g s).0
step g (was_reset sym) = reset g sym

-- The gate after a history, whose newest input stands first.
unfoldable pub after : List Input → ConfluenceGate
after [] = empty_gate
after (i ∷ is) = step (after is) i

-- The scores of a symbol at or above their thresholds since its last score below, or its last reset.
unfoldable pub streak : String → List Input → ℕ
streak sym [] = 0
streak sym (scored s ∷ is) =
    let before = streak sym is in
    if s.symbol == sym then (if above_threshold s then suc before else 0) else before
streak sym (was_reset other ∷ is) = let before = streak sym is in if other == sym then 0 else before

count-insert :
    (sym k : String) (n : ℕ) (d : Dict String ℕ)
    → count_of sym (insert k n d) ≡ (if k == sym then n else count_of sym d)
unfolding count_of
count-insert sym k n d = ground (arith, lookup-insert sym k n d)

count-erase :
    (sym k : String) (d : Dict String ℕ)
    → count_of sym (erase k d) ≡ (if k == sym then 0 else count_of sym d)
unfolding count_of
count-erase sym k d = ground (arith, lookup-erase sym k d)

-- The decision tree leaves the consecutive counters alone.
decide-consecutive :
    (g : ConfluenceGate) (s : ConfluenceScore) (n : ℕ)
    → (decide g s n).0.consecutive ≡ g.consecutive
unfolding decide
decide-consecutive g s n = ground arith

reset-consecutive :
    (g : ConfluenceGate) (sym : String) → (reset g sym).consecutive ≡ erase sym g.consecutive
unfolding reset
reset-consecutive g sym = refl

-- The counter that the decision tree sees.
count-count_cycle :
    (sym : String) (g : ConfluenceGate) (s : ConfluenceScore)
    → count_of sym (count_cycle g s).consecutive ≡ (
        if s.symbol == sym
        then (if above_threshold s then suc (count_of s.symbol g.consecutive) else 0)
        else count_of sym g.consecutive)
unfolding count_cycle
count-count_cycle sym g s = ground (
  arith,
  count-insert sym s.symbol (count_of s.symbol g.consecutive + 1) g.consecutive,
  count-insert sym s.symbol 0 g.consecutive,
)

count-evaluate :
    (sym : String) (g : ConfluenceGate) (s : ConfluenceScore)
    → count_of sym (evaluate g s).0.consecutive ≡ count_of sym (count_cycle g s).consecutive
unfolding evaluate
count-evaluate sym g s = ap (count_of sym) (decide-consecutive (count_cycle g s) s _)

-- The counter of a symbol is its streak.
pub count-streak :
    (sym : String) (is : List Input) → count_of sym (after is).consecutive ≡ streak sym is
unfolding after streak step
count-streak sym [] = unfold count_of empty_gate lookup in refl
count-streak sym (scored s ∷ is) = ground (
  arith,
  count-evaluate sym (after is) s,
  count-count_cycle sym (after is) s,
  count-streak sym is,
  eq_iff s.symbol sym,
)
count-streak sym (was_reset other ∷ is) = ground (
  arith,
  count-streak sym is,
  count-erase sym other (after is).consecutive,
  reset-consecutive (after is) other,
)

decide-full_auto :
    (g : ConfluenceGate) (s : ConfluenceScore) (n : ℕ)
    → (((decide g s n).1 ≡ full_auto_strong)
        ↔ ((2 ≤ n) × (threshold_of s.regime + 20 ≤ s.composite)))
      × (((decide g s n).1 ≡ full_auto) ↔ (
          (2 ≤ n)
          × (threshold_of s.regime ≤ s.composite)
          × (s.composite < threshold_of s.regime + 20)))
unfolding decide
decide-full_auto g s n =
    ((λ h. ground arith, λ h. ground arith), (λ h. ground arith, λ h. ground arith))

seen-streak :
    (is : List Input) (s : ConfluenceScore)
    → count_of s.symbol (count_cycle (after is) s).consecutive
      ≡ (if above_threshold s then suc (streak s.symbol is) else 0)
seen-streak is s =
    ground
      (arith, count-count_cycle s.symbol (after is) s, count-streak s.symbol is, ==_refl s.symbol)

-- After any history of scores and resets, the gate decides FULL_AUTO_STRONG, or FULL_AUTO, exactly
-- when the last score of the symbol since its reset was at or above its threshold and this score is
-- above its own by at least twenty points, or by less than twenty.
pub evaluate-streak :
    (is : List Input) (s : ConfluenceScore)
    → let d = (evaluate (after is) s).1 in
      ((d ≡ full_auto_strong)
        ↔ ((1 ≤ streak s.symbol is) × (threshold_of s.regime + 20 ≤ s.composite)))
      × ((d ≡ full_auto) ↔ (
          (1 ≤ streak s.symbol is)
          × (threshold_of s.regime ≤ s.composite)
          × (s.composite < threshold_of s.regime + 20)))
unfolding evaluate above_threshold
evaluate-streak is s = (
  (λ h. ground (arith, seen, tree.0.0 h), λ h. tree.0.1 (ground (arith, seen))),
  (λ h. ground (arith, seen, tree.1.0 h), λ h. tree.1.1 (ground (arith, seen))),
)
  where
    seen :
        count_of s.symbol (count_cycle (after is) s).consecutive
        ≡ (if above_threshold s then suc (streak s.symbol is) else 0)
    seen = seen-streak is s

    tree :
        let n = count_of s.symbol (count_cycle (after is) s).consecutive in
        (((decide (count_cycle (after is) s) s n).1 ≡ full_auto_strong)
          ↔ ((2 ≤ n) × (threshold_of s.regime + 20 ≤ s.composite)))
        × (((decide (count_cycle (after is) s) s n).1 ≡ full_auto) ↔ (
            (2 ≤ n)
            × (threshold_of s.regime ≤ s.composite)
            × (s.composite < threshold_of s.regime + 20)))
    tree = decide-full_auto (count_cycle (after is) s) s _

insert-other :
    (sym k : String) (n : ℕ) (d : Dict String ℕ)
    → k ≢ sym
    → lookup sym (insert k n d) ≡ lookup sym d
insert-other sym k n d ne = ground (arith, lookup-insert sym k n d, eq_iff k sym)

erase-other : (sym k : String) (d : Dict String ℕ) → k ≢ sym → lookup sym (erase k d) ≡ lookup sym d
erase-other sym k d ne = ground (arith, lookup-erase sym k d, eq_iff k sym)

-- Two gates agree on a symbol.
pub record SameFor (sym : String) (g g' : ConfluenceGate) : Type 0 where
  pub same_consecutive : lookup sym g'.consecutive ≡ lookup sym g.consecutive
  pub same_cooldown : lookup sym g'.alert_cooldown ≡ lookup sym g.alert_cooldown
  pub same_decay : lookup sym g'.watchlist_decay ≡ lookup sym g.watchlist_decay

count_cycle-other :
    (sym : String) (g : ConfluenceGate) (s : ConfluenceScore)
    → s.symbol ≢ sym
    → SameFor sym g (count_cycle g s)
unfolding count_cycle
count_cycle-other sym g s other = grind (arith, insert-other, erase-other)

decide-other :
    (sym : String) (g : ConfluenceGate) (s : ConfluenceScore) (n : ℕ)
    → s.symbol ≢ sym
    → SameFor sym g (decide g s n).0
unfolding decide
decide-other sym g s n other =
    let decay = count_of s.symbol g.watchlist_decay + 1 in
    ground (
      arith,
      erase-other sym s.symbol g.alert_cooldown other,
      insert-other sym s.symbol 10 g.alert_cooldown other,
      insert-other sym s.symbol (count_of s.symbol g.alert_cooldown - 1) g.alert_cooldown other,
      insert-other sym s.symbol decay g.watchlist_decay other,
      erase-other sym s.symbol (insert s.symbol decay g.watchlist_decay) other,
    )

-- A cycle of one symbol leaves all that the gate keeps for any other symbol as it was.
pub evaluate-other :
    (sym : String) (g : ConfluenceGate) (s : ConfluenceScore)
    → s.symbol ≢ sym
    → SameFor sym g (evaluate g s).0
unfolding evaluate
evaluate-other sym g s other =
    let counted = count_cycle-other sym g s other in
    let decided =
      decide-other sym (count_cycle g s) s (count_of s.symbol (count_cycle g s).consecutive)
        other in
    record {
      same_consecutive = decided.same_consecutive ∙ counted.same_consecutive;
      same_cooldown = decided.same_cooldown ∙ counted.same_cooldown;
      same_decay = decided.same_decay ∙ counted.same_decay;
    }
