-- ===== src/Common/Lists.antt =====
-- Lists measured by native numbers, and Python's slices and folds of lists.
use Prim.Native.Nat.{ℕ, zero, suc, ◌+◌, ◌-◌, ◌≤◌, ◌<◌}
use mathlib.Core.Path.{◌≡◌, ◌∙◌, refl, sym, ap}
use mathlib.Core.List.{List, [], ◌∷◌, ◌++◌, map, reverse_aux}
use mathlib.Core.Option.{Option, none, some}
use mathlib.Core.Bool.{Bool, true, ◌&&◌}
use native.Mathlib.Omega.{arith}
use mathlib.Core.Logic.{inl, inr}
use ghost_grid.Common.Tests.{if◌then◌else◌, ltb, Bool-cases}

module _ {ℓ} {A : Type ℓ} where
  abbrev pub length : List A → ℕ
  length [] = 0
  length (_ ∷ xs) = suc (length xs)

  abbrev pub drop : ℕ → List A → List A
  drop zero xs = xs
  drop (suc n) [] = []
  drop (suc n) (_ ∷ xs) = drop n xs

  abbrev pub take : ℕ → List A → List A
  take zero xs = []
  take (suc n) [] = []
  take (suc n) (x ∷ xs) = x ∷ take n xs

  -- `xs[-n:]`
  abbrev pub last_n : ℕ → List A → List A
  last_n n xs = drop (length xs - n) xs

  -- `xs[:-n]`
  abbrev pub but_last_n : ℕ → List A → List A
  but_last_n n xs = take (length xs - n) xs

  -- `xs[-1]`; none is an IndexError.
  abbrev pub get_last? : List A → Option A
  get_last? [] = none
  get_last? (x ∷ []) = some x
  get_last? (_ ∷ y ∷ xs) = get_last? (y ∷ xs)

  -- `xs[n]` for a natural n; none is an IndexError.
  abbrev pub get_elem? : List A → ℕ → Option A
  get_elem? [] _ = none
  get_elem? (x ∷ _) zero = some x
  get_elem? (_ ∷ xs) (suc n) = get_elem? xs n

  -- Python's `all(p(x) for x in xs)`.
  abbrev pub all_of : (A → Bool) → List A → Bool
  all_of p [] = true
  all_of p (x ∷ xs) = p x && all_of p xs

  -- `[x for x in xs if p(x)]`
  abbrev pub select : (A → Bool) → List A → List A
  select p [] = []
  select p (x ∷ xs) = if p x then x ∷ select p xs else select p xs

  -- A predicate that holds of every entry.
  abbrev pub All {κ} : (A → Type κ) → List A → Type κ
  All P [] = Unit
  All P (x ∷ xs) = P x × All P xs

  pub length-append : (xs ys : List A) → length (xs ++ ys) ≡ length xs + length ys
  length-append [] ys = omega arith
  length-append (x ∷ xs) ys = omega (arith, length-append xs ys)

  pub length-drop : (n : ℕ) (xs : List A) → length (drop n xs) ≡ length xs - n
  length-drop zero xs = omega arith
  length-drop (suc n) [] = omega arith
  length-drop (suc n) (_ ∷ xs) = omega (arith, length-drop n xs)

  pub drop-nil : (n : ℕ) → drop n [] ≡ []
  drop-nil zero = refl
  drop-nil (suc n) = refl

  pub All-append {κ} : (P : A → Type κ) (xs ys : List A) → All P xs → All P ys → All P (xs ++ ys)
  All-append P [] ys hx hy = hy
  All-append P (x ∷ xs) ys hx hy = (hx.0, All-append P xs ys hx.1 hy)

  pub All-drop {κ} : (P : A → Type κ) (n : ℕ) (xs : List A) → All P xs → All P (drop n xs)
  All-drop P zero xs h = h
  All-drop P (suc n) [] h = h
  All-drop P (suc n) (x ∷ xs) h = All-drop P n xs h.1

pub length-map {ℓ κ} :
    {A : Type ℓ} {B : Type κ} (f : A → B) (xs : List A) → length (map f xs) ≡ length xs
length-map f [] = refl
length-map f (x ∷ xs) = ap suc (length-map f xs)

-- `range(start, start + n)`
abbrev pub range : ℕ → ℕ → List ℕ
range start zero = []
range start (suc n) = start ∷ range (suc start) n

-- What holds of every index between the bounds holds of the entries of a range.
pub All-range {ℓ} :
    (P : ℕ → Type ℓ) (start n : ℕ)
    → ((i : ℕ) → start ≤ i → i < start + n → P i)
    → All P (range start n)
All-range P start zero f = tt
All-range P start (suc n) f = (
  f start (omega arith) (omega arith),
  All-range P (suc start) n λ i low high. f i (omega arith) (omega arith),
)

pub length-take_all {ℓ} :
    {A : Type ℓ} (n : ℕ) (xs : List A) → n ≤ length xs → length (take n xs) ≡ n
length-take_all zero xs h = refl
length-take_all (suc n) [] h = absurd (omega arith)
length-take_all (suc n) (x ∷ xs) h = omega (arith, length-take_all n xs (omega arith))

-- What the entries that pass a test have.
pub All-select {ℓ κ} :
    {A : Type ℓ} (P Q : A → Type κ) (p : A → Bool) (xs : List A)
    → ((x : A) → p x ≡ true → P x → Q x)
    → All P xs
    → All Q (select p xs)
All-select P Q p [] f h = tt
All-select P Q p (x ∷ xs) f h = elim (Bool-cases (p x)) [
  | inl good ↦ rw good (f x good h.0, All-select P Q p xs f h.1)
  | inr bad ↦ rw bad (All-select P Q p xs f h.1)
]

pub All-all_of {ℓ} :
    {A : Type ℓ} (p : A → Bool) (xs : List A) → all_of p xs ≡ true → All (λ x. p x ≡ true) xs
All-all_of p [] h = tt
All-all_of p (x ∷ xs) h = (ground arith, All-all_of p xs (ground arith))

pub All-reverse_aux {ℓ κ} :
    {A : Type ℓ} (P : A → Type κ) (xs ys : List A) → All P xs → All P ys → All P (reverse_aux xs ys)
All-reverse_aux P [] ys h k = k
All-reverse_aux P (x ∷ xs) ys h k = All-reverse_aux P xs (x ∷ ys) h.1 (h.0, k)

pub drop-append {ℓ} :
    {A : Type ℓ} (n : ℕ) (xs ys : List A) → n ≤ length xs → drop n (xs ++ ys) ≡ drop n xs ++ ys
drop-append zero xs ys h = refl
drop-append (suc n) [] ys h = absurd (omega arith)
drop-append (suc n) (x ∷ xs) ys h = drop-append n xs ys (omega arith)

pub drop-drop {ℓ} : {A : Type ℓ} (m n : ℕ) (xs : List A) → drop m (drop n xs) ≡ drop (n + m) xs
drop-drop m zero xs = ap (λ k. drop k xs) (omega arith)
drop-drop m (suc n) [] = drop-nil m ∙ sym (drop-nil (suc n + m))
drop-drop m (suc n) (x ∷ xs) =
    drop-drop m n xs ∙ ap (λ k. drop k (x ∷ xs)) {x = suc (n + m)} {y = suc n + m} (omega arith)

-- A bounded queue that drops its oldest entry holds the last entries of what was put.
pub last_n-snoc {ℓ} :
    {A : Type ℓ} (n : ℕ) (s : List A) (x : A)
    → (let ys = last_n n s ++ x ∷ [] in if ltb n (length ys) then drop 1 ys else ys)
      ≡ last_n n (s ++ x ∷ [])
last_n-snoc n s x = elim (Bool-cases (ltb n (length (last_n n s ++ x ∷ [])))) [
  | inl full ↦ rw full (
      ap (drop 1) (sym shift)
      ∙ drop-drop 1 (length s - n) (s ++ x ∷ [])
      ∙ ap (λ k. drop k (s ++ x ∷ [])) (ground (arith, sizes, tail, full)))
  | inr room ↦
      rw room (sym shift ∙ ap (λ k. drop k (s ++ x ∷ [])) (ground (arith, sizes, tail, room)))
]
  where
    shift : drop (length s - n) (s ++ x ∷ []) ≡ last_n n s ++ x ∷ []
    shift = drop-append (length s - n) s (x ∷ []) (omega arith)

    sizes : length (last_n n s ++ x ∷ []) ≡ (length s - (length s - n)) + 1
    sizes = omega (arith, length-append (last_n n s) (x ∷ []), length-drop (length s - n) s)

    tail : length (s ++ x ∷ []) ≡ length s + 1
    tail = omega (arith, length-append s (x ∷ []))

module _ {ℓ} {A : Type ℓ} where
  take-nil : (n : ℕ) → take {A = A} n [] ≡ []
  take-nil zero = refl
  take-nil (suc n) = refl

  -- One that refuses a new entry holds the first entries.
  pub take-snoc :
      (n : ℕ) (s : List A) (x : A)
      → (if ltb (length (take n s)) n then take n s ++ x ∷ [] else take n s) ≡ take n (s ++ x ∷ [])
  take-snoc zero s x = ground arith
  take-snoc (suc n) [] x = ground (arith, take-nil n)
  take-snoc (suc n) (y ∷ s) x = ground (arith, take-snoc n s x)
