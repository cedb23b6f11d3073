-- ===== src/Common/Reals.antt =====
-- Python's floats. The program runs on IEEE doubles, which are not modelled: their type, arithmetic
-- and comparison are the fields of an interface. Its laws say that comparison is a total preorder
-- (no value is NaN), that literals are not negative, that subtraction is monotone at zero, that a value which
-- is not positive has a negation which is not negative, and that sums, products and rounding are monotone. `Fixed` gives an instance.
use Prim.Native.Nat.{ℕ, ◌≤◌}
use mathlib.Core.Path.{◌≡◌}
use mathlib.Core.Bool.{Bool, true, false, not, ◌&&◌}
use mathlib.Core.Option.{Option, none, some}
use mathlib.Core.List.{List, [], ◌∷◌, map}
use native.Mathlib.Omega.{arith}
use ghost_grid.Common.Tests.{if◌then◌else◌}

pub record Floats : Type 1 where
  pub Carrier : Type 0
  pub lte : Carrier → Carrier → Bool
  pub add : Carrier → Carrier → Carrier
  pub sub : Carrier → Carrier → Carrier
  pub mul : Carrier → Carrier → Carrier
  -- The quotient by a divisor that is not zero.
  pub div : Carrier → Carrier → Carrier
  -- The decimal literal m / 10 ^ k.
  pub lit : ℕ → ℕ → Carrier
  -- `math.floor`, read back as a float.
  pub floor : Carrier → Carrier
  -- `int(round(x))` of a value that is not negative.
  pub round : Carrier → ℕ
  pub lte-trans : (a b c : Carrier) → lte a b ≡ true → lte b c ≡ true → lte a c ≡ true
  pub lte-total : (a b : Carrier) → lte a b ≡ false → lte b a ≡ true
  -- A literal is not negative, and taking away what is not negative does not increase a value.
  pub lit-nonneg : (m k : ℕ) → lte (lit 0 0) (lit m k) ≡ true
  pub sub-le : (a b : Carrier) → lte (lit 0 0) b ≡ true → lte (sub a b) a ≡ true
  pub neg-nonneg : (a : Carrier) → lte a (lit 0 0) ≡ true → lte (lit 0 0) (sub (lit 0 0) a) ≡ true
  -- Rounding keeps the order of what is rounded, so the operations are monotone.
  pub lit-mono : (m n : ℕ) → m ≤ n → lte (lit m 0) (lit n 0) ≡ true
  pub add-mono :
      (a b c d : Carrier) → lte a b ≡ true → lte c d ≡ true → lte (add a c) (add b d) ≡ true
  pub mul-mono :
      (a b c : Carrier) → lte a b ≡ true → lte (lit 0 0) c ≡ true → lte (mul a c) (mul b c) ≡ true
  pub mul_comm : (a b : Carrier) → mul a b ≡ mul b a
  pub add-nonneg :
      (a b : Carrier)
      → lte (lit 0 0) a ≡ true
      → lte (lit 0 0) b ≡ true
      → lte (lit 0 0) (add a b) ≡ true
  pub div-nonneg :
      (a b : Carrier)
      → lte (lit 0 0) a ≡ true
      → lte (lit 0 0) b ≡ true
      → lte (lit 0 0) (div a b) ≡ true
  pub round-mono : (a b : Carrier) → lte a b ≡ true → round a ≤ round b

abbrev pub Float : ⦃F : Floats⦄ → Type 0
Float ⦃F⦄ = F.Carrier

module _ ⦃F : Floats⦄ where
  infix 50 ◌≤?◌ ◌<?◌ ◌=?◌
  abbrev pub ◌≤?◌ : Float → Float → Bool
  a ≤? b = F.lte a b

  abbrev pub ◌<?◌ : Float → Float → Bool
  a <? b = not (F.lte b a)

  abbrev pub ◌=?◌ : Float → Float → Bool
  a =? b = F.lte a b && F.lte b a

  abbrev pub add : Float → Float → Float
  add a b = F.add a b

  abbrev pub sub : Float → Float → Float
  sub a b = F.sub a b

  abbrev pub mul : Float → Float → Float
  mul a b = F.mul a b

  abbrev pub div : Float → Float → Float
  div a b = F.div a b

  abbrev pub lit : ℕ → ℕ → Float
  lit = F.lit

  abbrev pub zero_f : Float
  zero_f = F.lit 0 0

  abbrev pub round : Float → ℕ
  round = F.round

  -- The unary minus of the source: a zero of the other sign compares equal.
  abbrev pub neg : Float → Float
  neg a = F.sub (F.lit 0 0) a

  -- Python's `/`: none is a ZeroDivisionError.
  abbrev pub div? : Float → Float → Option Float
  div? a b = if b =? F.lit 0 0 then none else some (F.div a b)

  -- Python's `abs`.
  abbrev pub abs : Float → Float
  abs a = if a <? F.lit 0 0 then F.sub (F.lit 0 0) a else a

  -- Python's `max(a, b)` and `min(a, b)` keep the first of two equal values.
  abbrev pub fmax : Float → Float → Float
  fmax a b = if a <? b then b else a

  abbrev pub fmin : Float → Float → Float
  fmin a b = if b <? a then b else a

  max_from : Float → List Float → Float
  max_from a [] = a
  max_from a (b ∷ xs) = max_from (fmax a b) xs

  min_from : Float → List Float → Float
  min_from a [] = a
  min_from a (b ∷ xs) = min_from (fmin a b) xs

  -- `max(xs)` and `min(xs)`: none is the ValueError of an empty sequence.
  unfoldable pub max? : List Float → Option Float
  unfolding max_from
  max? [] = none
  max? (a ∷ xs) = some (max_from a xs)

  unfoldable pub min? : List Float → Option Float
  unfolding min_from
  min? [] = none
  min? (a ∷ xs) = some (min_from a xs)

  -- `sum(xs)` adds from the left.
  unfoldable pub sum_from : Float → List Float → Float
  sum_from a [] = a
  sum_from a (b ∷ xs) = sum_from (add a b) xs

  pub lte_refl : (a : Float) → (a ≤? a) ≡ true
  lte_refl a = ground (arith, F.lte-total a a)

  pub le-fmax_left : (a b : Float) → (a ≤? fmax a b) ≡ true
  le-fmax_left a b = ground (arith, lte_refl a, F.lte-total b a)

  pub le-fmax_right : (a b : Float) → (b ≤? fmax a b) ≡ true
  le-fmax_right a b = ground (arith, lte_refl b)

  pub fmin-le_left : (a b : Float) → (fmin a b ≤? a) ≡ true
  fmin-le_left a b = ground (arith, lte_refl a, F.lte-total a b)

  pub fmin-le_right : (a b : Float) → (fmin a b ≤? b) ≡ true
  fmin-le_right a b = ground (arith, lte_refl b)

  pub abs-nonneg : (a : Float) → (zero_f ≤? abs a) ≡ true
  abs-nonneg a = ground (arith, F.neg-nonneg a, F.lte-total zero_f a)

  -- A sum of absolute values is not negative.
  pub sum_from-nonneg :
      (a : Float) (xs : List Float)
      → (zero_f ≤? a) ≡ true
      → (zero_f ≤? sum_from a (map abs xs)) ≡ true
  unfolding sum_from
  sum_from-nonneg a [] h = h
  sum_from-nonneg a (x ∷ xs) h =
      sum_from-nonneg (add a (abs x)) xs (F.add-nonneg a (abs x) h (abs-nonneg x))

  max_from_ge : (a : Float) (xs : List Float) → (a ≤? max_from a xs) ≡ true
  unfolding max_from
  max_from_ge a [] = lte_refl a
  max_from_ge a (b ∷ xs) = F.lte-trans a (fmax a b) _ (le-fmax_left a b) (max_from_ge (fmax a b) xs)
