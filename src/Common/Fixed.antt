-- ===== src/Common/Fixed.antt =====
-- An instance of the interface of floats: decimal fixed point with six places, over integers.
-- It serves the examples at concrete inputs and shows that the laws can hold.
use Prim.Native.Nat.{ℕ, ◌≤◌, suc, ◌+◌, ◌-◌, ◌*◌, ◌/◌, ◌^◌}
use mathlib.Core.Path.{◌≡◌}
use mathlib.Core.Bool.{Bool, true, false}
use native.Mathlib.Omega.{arith}
use ghost_grid.Common.Tests.{leb, nat_beq, if◌then◌else◌}
use ghost_grid.Common.Reals.{Floats}

-- `negsuc n` is -(n + 1).
pub data ℤ : Type 0 where
  pos : ℕ → ℤ
  negsuc : ℕ → ℤ

abbrev pub pos_part : ℤ → ℕ
pos_part (pos n) = n
pos_part (negsuc _) = 0

abbrev pub neg_part : ℤ → ℕ
neg_part (pos _) = 0
neg_part (negsuc n) = suc n

-- a - b, as an integer.
abbrev pub sub_ℕ : ℕ → ℕ → ℤ
sub_ℕ a b = if leb b a then pos (a - b) else negsuc (b - a - 1)

abbrev pub scale : ℕ
scale = 1000000

abbrev pub leb_ℤ : ℤ → ℤ → Bool
leb_ℤ a b = leb (pos_part a + neg_part b) (pos_part b + neg_part a)

abbrev pub add_ℤ : ℤ → ℤ → ℤ
add_ℤ a b = sub_ℕ (pos_part a + pos_part b) (neg_part a + neg_part b)

abbrev pub sub_ℤ : ℤ → ℤ → ℤ
sub_ℤ a b = sub_ℕ (pos_part a + neg_part b) (neg_part a + pos_part b)

-- Products and quotients are cut off towards zero at the sixth place.
abbrev pub mul_ℤ : ℤ → ℤ → ℤ
mul_ℤ a b =
    sub_ℕ ((pos_part a * pos_part b + neg_part a * neg_part b) / scale)
      ((pos_part a * neg_part b + neg_part a * pos_part b) / scale)

abbrev pub div_ℤ : ℤ → ℤ → ℤ
div_ℤ a b =
    let m = pos_part b + neg_part b in
    sub_ℕ (if nat_beq (neg_part b) 0 then pos_part a * scale / m else neg_part a * scale / m)
      (if nat_beq (neg_part b) 0 then neg_part a * scale / m else pos_part a * scale / m)

abbrev pub lit_ℤ : ℕ → ℕ → ℤ
lit_ℤ m k = pos (m * scale / 10 ^ k)

abbrev pub floor_ℤ : ℤ → ℤ
floor_ℤ (pos n) = pos (n / scale * scale)
floor_ℤ (negsuc n) = negsuc ((n / scale + 1) * scale - 1)

pub leb_ℤ-trans : (a b c : ℤ) → leb_ℤ a b ≡ true → leb_ℤ b c ≡ true → leb_ℤ a c ≡ true
leb_ℤ-trans a b c p q = ground arith

pub leb_ℤ-total : (a b : ℤ) → leb_ℤ a b ≡ false → leb_ℤ b a ≡ true
leb_ℤ-total a b p = ground arith

pub lit_ℤ-nonneg : (m k : ℕ) → leb_ℤ (lit_ℤ 0 0) (lit_ℤ m k) ≡ true
lit_ℤ-nonneg m k = ground arith

pub sub_ℤ-le : (a b : ℤ) → leb_ℤ (lit_ℤ 0 0) b ≡ true → leb_ℤ (sub_ℤ a b) a ≡ true
sub_ℤ-le a b h = ground arith

pub neg_ℤ-nonneg :
    (a : ℤ) → leb_ℤ a (lit_ℤ 0 0) ≡ true → leb_ℤ (lit_ℤ 0 0) (sub_ℤ (lit_ℤ 0 0) a) ≡ true
neg_ℤ-nonneg a h = ground arith

-- Half a unit is rounded up.
abbrev pub round_ℤ : ℤ → ℕ
round_ℤ a = (pos_part a + scale / 2) / scale

pub lit_ℤ-mono : (m n : ℕ) → m ≤ n → leb_ℤ (lit_ℤ m 0) (lit_ℤ n 0) ≡ true
lit_ℤ-mono m n h = ground arith

pub add_ℤ-mono :
    (a b c d : ℤ) → leb_ℤ a b ≡ true → leb_ℤ c d ≡ true → leb_ℤ (add_ℤ a c) (add_ℤ b d) ≡ true
add_ℤ-mono a b c d p q = ground arith

times_comm : (a b c d : ℕ) → a * b + c * d ≡ b * a + d * c
times_comm a b c d = grind arith

cross_comm : (a b c d : ℕ) → a * b + c * d ≡ d * c + b * a
cross_comm a b c d = grind arith

pub mul_ℤ_comm : (a b : ℤ) → mul_ℤ a b ≡ mul_ℤ b a
mul_ℤ_comm a b = cc (
  times_comm (pos_part a) (pos_part b) (neg_part a) (neg_part b),
  cross_comm (pos_part a) (neg_part b) (neg_part a) (pos_part b),
)

times_mono : (x y n : ℕ) → x ≤ y → x * n ≤ y * n
times_mono x y n h = grind arith

pub mul_ℤ-mono :
    (a b c : ℤ)
    → leb_ℤ a b ≡ true
    → leb_ℤ (lit_ℤ 0 0) c ≡ true
    → leb_ℤ (mul_ℤ a c) (mul_ℤ b c) ≡ true
mul_ℤ-mono (pos x) (pos y) (pos n) p q = ground (arith, times_mono x y n)
mul_ℤ-mono (negsuc x) (pos y) (pos n) p q = ground (arith)
mul_ℤ-mono (pos x) (negsuc y) (pos n) p q = ground (arith)
mul_ℤ-mono (negsuc x) (negsuc y) (pos n) p q = ground (arith, times_mono (suc y) (suc x) n)
mul_ℤ-mono a b (negsuc n) p q = ground arith

pub add_ℤ-nonneg :
    (a b : ℤ)
    → leb_ℤ (lit_ℤ 0 0) a ≡ true
    → leb_ℤ (lit_ℤ 0 0) b ≡ true
    → leb_ℤ (lit_ℤ 0 0) (add_ℤ a b) ≡ true
add_ℤ-nonneg a b p q = ground arith

pub div_ℤ-nonneg :
    (a b : ℤ)
    → leb_ℤ (lit_ℤ 0 0) a ≡ true
    → leb_ℤ (lit_ℤ 0 0) b ≡ true
    → leb_ℤ (lit_ℤ 0 0) (div_ℤ a b) ≡ true
div_ℤ-nonneg (pos x) (pos y) p q = ground arith
div_ℤ-nonneg a (negsuc y) p q = ground arith
div_ℤ-nonneg (negsuc x) b p q = ground arith

pub round_ℤ-mono : (a b : ℤ) → leb_ℤ a b ≡ true → round_ℤ a ≤ round_ℤ b
round_ℤ-mono a b p = ground arith

instance abbrev pub fixed : Floats
fixed = record {
  Carrier = ℤ;
  lte = leb_ℤ;
  add = add_ℤ;
  sub = sub_ℤ;
  mul = mul_ℤ;
  div = div_ℤ;
  lit = lit_ℤ;
  floor = floor_ℤ;
  round = round_ℤ;
  lte-trans = leb_ℤ-trans;
  lte-total = leb_ℤ-total;
  lit-nonneg = lit_ℤ-nonneg;
  sub-le = sub_ℤ-le;
  neg-nonneg = neg_ℤ-nonneg;
  lit-mono = lit_ℤ-mono;
  add-mono = add_ℤ-mono;
  mul-mono = mul_ℤ-mono;
  mul_comm = mul_ℤ_comm;
  add-nonneg = add_ℤ-nonneg;
  div-nonneg = div_ℤ-nonneg;
  round-mono = round_ℤ-mono;
}
