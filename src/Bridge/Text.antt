-- ===== src/Bridge/Text.antt =====
-- Texts as lists of code points, and what bridge/protocol.py uses of Python's strings: strip, split, join,
-- int and equality.
use Prim.Native.Char.{code}
use ghost_grid.Common.{
  ℕ, zero, suc, ◌+◌, ◌-◌, ◌*◌, ◌≡◌, ◌≢◌, ◌↔◌, ◌∙◌, refl, ap, String, Bool, true, false, ◌&&◌, ◌||◌,
  Option, none, some, List, [], ◌∷◌, ◌++◌, All, leb, nat_beq, if◌then◌else◌, arith,
}
use ghost_grid.Common.Fixed.{ℤ, pos, negsuc}

abbrev pub Text : Type 0
Text = List ℕ

-- The code points of a literal.
abbrev pub codes : String → Text
codes String.[] = []
codes (String.◌∷◌ c s) = code c ∷ codes s

unfoldable pub text_eq : Text → Text → Bool
text_eq [] [] = true
text_eq (c ∷ s) (d ∷ t) = nat_beq c d && text_eq s t
text_eq _ _ = false

pub text_eq_iff : (s t : Text) → (text_eq s t ≡ true) ↔ (s ≡ t)
unfolding text_eq
text_eq_iff [] [] = (λ _. refl, λ _. refl)
text_eq_iff [] (d ∷ t) = (λ h. cc, λ h. cc)
text_eq_iff (c ∷ s) [] = (λ h. cc, λ h. cc)
text_eq_iff (c ∷ s) (d ∷ t) = ground (arith, text_eq_iff s t)

-- `str.isspace` of one character.
unfoldable pub is_space : ℕ → Bool
is_space c =
    (leb 9 c && leb c 13)
    || (leb 28 c && leb c 32)
    || nat_beq c 133
    || nat_beq c 160
    || nat_beq c 5760
    || (leb 8192 c && leb c 8202)
    || nat_beq c 8232
    || nat_beq c 8233
    || nat_beq c 8239
    || nat_beq c 8287
    || nat_beq c 12288

unfoldable pub strip_left : Text → Text
strip_left [] = []
strip_left (c ∷ s) = let rest = strip_left s in if is_space c then rest else c ∷ s

-- A character before a text whose trailing spaces are gone.
abbrev pub cons_stripped : ℕ → Text → Text
cons_stripped c [] = if is_space c then [] else c ∷ []
cons_stripped c (d ∷ s) = c ∷ d ∷ s

unfoldable pub strip_right : Text → Text
strip_right [] = []
strip_right (c ∷ s) = cons_stripped c (strip_right s)

-- `str.strip`
unfoldable pub strip : Text → Text
strip s = strip_right (strip_left s)

-- One more character in the first part.
abbrev pub into_first : ℕ → List Text → List Text
into_first c [] = (c ∷ []) ∷ []
into_first c (part ∷ parts) = (c ∷ part) ∷ parts

-- `str.split` at one character: there is always a first part.
unfoldable pub split : ℕ → Text → List Text
split sep [] = [] ∷ []
split sep (c ∷ s) =
    let parts = split sep s in if nat_beq c sep then [] ∷ parts else into_first c parts

-- `sep.join(parts)`
unfoldable pub join : ℕ → List Text → Text
join sep [] = []
join sep (part ∷ []) = part
join sep (part ∷ more ∷ parts) = part ++ sep ∷ join sep (more ∷ parts)

-- The digits of `int`, where single underscores may stand between them. Digits of other scripts are left out.
unfoldable pub digits : ℕ → Bool → Text → Option ℕ
digits acc after_digit [] = if after_digit then some acc else none
digits acc after_digit (c ∷ s) =
    let as_digit = digits (acc * 10 + (c - 48)) true s in
    let as_mark = digits acc false s in
    if leb 48 c && leb c 57 then as_digit else if nat_beq c 95 && after_digit then as_mark else none

abbrev negate : ℕ → ℤ
negate zero = pos zero
negate (suc n) = negsuc n

abbrev as_pos : Option ℕ → Option ℤ
as_pos none = none
as_pos (some n) = some (pos n)

abbrev as_neg : Option ℕ → Option ℤ
as_neg none = none
as_neg (some n) = some (negate n)

abbrev signed : Text → Option ℤ
signed [] = none
signed (c ∷ s) =
    if nat_beq c 45
    then as_neg (digits 0 false s)
    else if nat_beq c 43
    then as_pos (digits 0 false s)
    else as_pos (digits 0 false (c ∷ s))

-- `int(text)`: none is a ValueError.
unfoldable pub parse_int : Text → Option ℤ
parse_int s = signed (strip s)

-- A text without a character.
abbrev pub Lacks : ℕ → Text → Type 0
Lacks c = All (λ d. d ≢ c)

split-Lacks : (sep : ℕ) (s : Text) → Lacks sep s → split sep s ≡ s ∷ []
unfolding split
split-Lacks sep [] h = refl
split-Lacks sep (c ∷ s) h = rw (split-Lacks sep s h.1) (ground arith)

split-append : (sep : ℕ) (s t : Text) → Lacks sep s → split sep (s ++ sep ∷ t) ≡ s ∷ split sep t
unfolding split
split-append sep [] t h = ground arith
split-append sep (c ∷ s) t h = rw (split-append sep s t h.1) (ground arith)

-- Splitting a join gives the parts back, where there is one and none contains the separator.
pub split-join :
    (sep : ℕ) (part : Text) (parts : List Text)
    → Lacks sep part
    → All (Lacks sep) parts
    → split sep (join sep (part ∷ parts)) ≡ part ∷ parts
unfolding join
split-join sep part [] h hs = split-Lacks sep part h
split-join sep part (more ∷ parts) h hs =
    split-append sep part (join sep (more ∷ parts)) h
    ∙ ap (λ rest. part ∷ rest) (split-join sep more parts hs.0 hs.1)
