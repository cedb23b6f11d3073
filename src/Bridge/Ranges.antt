-- ===== src/Bridge/Ranges.antt =====
-- The messages that bridge/protocol.py lets through: their numbers are in range and their sides known.
use ghost_grid.Common.{
  ℕ, suc, All, select, ltb, nat_beq, ◌||◌, Bool-cases, inl, inr, ◌≤◌, ◌≡◌, refl, Bool, true, false,
  ◌&&◌, Option, none, some, [], ◌∷◌, leb, if◌then◌else◌, arith, Floats, Float, ◌≤?◌, lit, length,
}
use ghost_grid.Common.Fixed.{ℤ}
use ghost_grid.Bridge.Text.{Text}
use ghost_grid.Bridge.Sanitize.{
  sanitize_position_id, sanitize_direction, sanitize_dominant_side, sanitize_description,
  sanitize_volume, sanitize_timestamp_ms, sanitize_error_code, sanitize_numeric_range, is_side,
  between,
}
use ghost_grid.Bridge.Protocol.{
  Fault, Parsed, ok, fault, ◌>>=◌, guard, or_fault, TickMessage, FillMessage, Message, tick_message,
  fill_message, reject_message, closed_message, heartbeat_message,
}

-- What holds of a result, where there is one.
abbrev pub Gives {ℓ κ} : {A : Type ℓ} → (A → Type κ) → Option A → Type κ
Gives P none = Unit
Gives P (some a) = P a

abbrev pub Yields {ℓ κ} : {A : Type ℓ} → (A → Type κ) → Parsed A → Type κ
Yields P (fault e) = Unit
Yields P (ok a) = P a

pub valid-Yields {ℓ κ ι μ} :
    {A : Type ℓ} {B : Type ι} (P : A → Type κ) (Q : B → Type μ) (e : Fault) (o : Option A)
    (f : A → Parsed B)
    → Gives P o
    → ((a : A) → P a → Yields Q (f a))
    → Yields Q (or_fault e o >>= f)
valid-Yields P Q e none f h k = tt
valid-Yields P Q e (some a) f h k = k a h

-- A step of which nothing is used.
pub step-Yields {ℓ ι μ} :
    {A : Type ℓ} {B : Type ι} (Q : B → Type μ) (p : Parsed A) (f : A → Parsed B)
    → ((a : A) → Yields Q (f a))
    → Yields Q (p >>= f)
step-Yields Q (fault e) f k = tt
step-Yields Q (ok a) f k = k a

pub guard-Yields {ι μ} :
    {B : Type ι} (Q : B → Type μ) (b : Bool) (e : Fault) (f : Unit → Parsed B)
    → (b ≡ true → Yields Q (f tt))
    → Yields Q (guard b e >>= f)
guard-Yields Q true e f k = k refl
guard-Yields Q false e f k = tt

kept-Gives {ℓ κ} :
    {A : Type ℓ} (P : A → Type κ) (b : Bool) (a : A)
    → (b ≡ true → P a)
    → Gives P (if b then some a else none)
kept-Gives P true a h = h refl
kept-Gives P false a h = tt

-- A position id, and the text of a description.
abbrev pub IsId : Text → Type 0
IsId s = (1 ≤ length s) × (length s ≤ 32)

abbrev pub IsDescription : Text → Type 0
IsDescription s = (1 ≤ length s) × (length s ≤ 256) × All (λ c. 32 ≤ c) s

abbrev pub IsTimestamp : ℤ → Type 0
IsTimestamp n = between 1577836800000 2524608000000 n ≡ true

pub sanitize_position_id-Gives : (s : Text) → Gives IsId (sanitize_position_id s)
unfolding sanitize_position_id
sanitize_position_id-Gives s = ground arith

length-select : (p : ℕ → Bool) (s : Text) → length (select p s) ≤ length s
length-select p [] = omega arith
length-select p (c ∷ s) =
    elim (p c) as (λ b. length (if b then c ∷ select p s else select p s) ≤ suc (length s)) [
      | true ↦ omega (arith, length-select p s)
      | false ↦ omega (arith, length-select p s)
    ]

selected : (s : Text) → All (λ c. 32 ≤ c) (select (leb 32) s)
selected [] = tt
selected (c ∷ s) = elim (Bool-cases (leb 32 c)) [
  | inl good ↦ rw good (ground arith, selected s)
  | inr bad ↦ rw bad (selected s)
]

pub sanitize_description-Gives : (s : Text) → Gives IsDescription (sanitize_description s)
unfolding sanitize_description
sanitize_description-Gives s = elim (Bool-cases (nat_beq (length s) 0 || ltb 256 (length s))) [
  | inl refused ↦ rw refused tt
  | inr kept ↦ rw kept (elim (Bool-cases (nat_beq (length (select (leb 32) s)) 0)) [
    | inl empty ↦ rw empty tt
    | inr full ↦ rw full (ground arith, ground (arith, length-select (leb 32) s), selected s)
  ])
]

pub sanitize_error_code-Gives :
    (n : ℤ) → Gives (λ k. between 1 10000 k ≡ true) (sanitize_error_code n)
unfolding sanitize_error_code
sanitize_error_code-Gives n = kept-Gives _ (between 1 10000 n) n (λ h. h)

pub sanitize_volume-Gives : (n : ℤ) → Gives (λ k. between 0 1000000 k ≡ true) (sanitize_volume n)
unfolding sanitize_volume
sanitize_volume-Gives n = kept-Gives _ (between 0 1000000 n) n (λ h. h)

pub sanitize_timestamp_ms-Gives : (n : ℤ) → Gives IsTimestamp (sanitize_timestamp_ms n)
unfolding sanitize_timestamp_ms
sanitize_timestamp_ms-Gives n =
    kept-Gives IsTimestamp (between 1577836800000 2524608000000 n) n (λ h. h)

pub sanitize_direction-Gives : (s : Text) → Gives (λ d. is_side d ≡ true) (sanitize_direction s)
unfolding sanitize_direction
sanitize_direction-Gives s = kept-Gives (λ d. is_side d ≡ true) (is_side s) s (λ h. h)

pub sanitize_dominant_side-Gives :
    (s : Text) → Gives (λ d. is_side d ≡ true) (sanitize_dominant_side s)
unfolding sanitize_dominant_side
sanitize_dominant_side-Gives s = kept-Gives (λ d. is_side d ≡ true) (is_side s) s (λ h. h)

module _ ⦃F : Floats⦄ where
  abbrev pub IsBetween : Float → Float → Float → Type 0
  IsBetween low high x = ((low ≤? x) ≡ true) × ((x ≤? high) ≡ true)

  abbrev pub IsPrice : Float → Type 0
  IsPrice x = IsBetween (lit 1 5) (lit 100000 0) x

  abbrev pub IsLots : Float → Type 0
  IsLots x = IsBetween (lit 1 2) (lit 100 0) x

  pub record IsTick (t : TickMessage) : Type 0 where
    pub timestamp : IsTimestamp t.timestamp_ms
    pub bid : IsPrice t.bid
    pub ask : IsPrice t.ask
    pub spread : (t.bid ≤? t.ask) ≡ true
    pub volume : between 0 1000000 t.tick_volume ≡ true
    pub side : is_side t.dominant_side ≡ true

  pub record IsFill (m : FillMessage) : Type 0 where
    pub position_id : IsId m.position_id
    pub direction : is_side m.direction ≡ true
    pub price : IsPrice m.fill_price
    pub lots : IsLots m.lots

  -- What each kind of message is bound to.
  unfoldable pub InRange : Message → Type 0
  InRange (tick_message t) = IsTick t
  InRange (fill_message m) = IsFill m
  InRange (reject_message m) =
      IsId m.position_id × (between 1 10000 m.error_code ≡ true) × IsDescription m.description
  InRange (closed_message m) = IsId m.position_id × IsPrice m.close_price × IsLots m.lots
  InRange (heartbeat_message n) = IsTimestamp n

  pub sanitize_numeric_range-Gives :
      (x low high : Float) → Gives (IsBetween low high) (sanitize_numeric_range x low high)
  unfolding sanitize_numeric_range
  sanitize_numeric_range-Gives x low high =
      kept-Gives (IsBetween low high) (low ≤? x && x ≤? high) x (λ h. (ground arith, ground arith))
