-- ===== src/Bridge/Sanitize.antt =====
-- security/sanitization.py. Texts are lists of code points.
use ghost_grid.Common.{
  ℕ, ◌-◌, Bool, false, ◌&&◌, ◌||◌, Option, none, some, [], ◌∷◌, map, leb, ltb, nat_beq, length,
  last_n, but_last_n, all_of, select, if◌then◌else◌, Floats, Float, ◌≤?◌, lit,
}
use ghost_grid.Common.Fixed.{ℤ, pos, negsuc}
use ghost_grid.Bridge.Text.{Text, codes, text_eq}

abbrev pub is_upper : ℕ → Bool
is_upper c = leb 65 c && leb c 90

abbrev pub is_lower : ℕ → Bool
is_lower c = leb 97 c && leb c 122

abbrev pub is_digit : ℕ → Bool
is_digit c = leb 48 c && leb c 57

-- The classes of the two patterns.
unfoldable pub is_symbol_char : ℕ → Bool
is_symbol_char c = is_upper c || is_digit c

unfoldable pub is_id_char : ℕ → Bool
is_id_char c = is_lower c || is_upper c || is_digit c || nat_beq c 45 || nat_beq c 95

abbrev ends_with_newline : Text → Bool
ends_with_newline s = text_eq (last_n 1 s) (10 ∷ [])

abbrev is_run : (ℕ → Bool) → ℕ → Text → Bool
is_run p n s = leb 1 (length s) && leb (length s) n && all_of p s

-- `re.match(r"^[..]{1,n}$", s)`: the dollar also matches before a newline at the end.
unfoldable pub matches_run : (ℕ → Bool) → ℕ → Text → Bool
matches_run p n s = is_run p n s || (ends_with_newline s && is_run p n (but_last_n 1 s))

-- `str.upper`, on the characters that the pattern lets through.
abbrev pub to_upper : ℕ → ℕ
to_upper c = if is_lower c then c - 32 else c

unfoldable pub sanitize_symbol : Text → Option Text
sanitize_symbol value =
    if nat_beq (length value) 0 || ltb 10 (length value)
    then none
    else if matches_run is_symbol_char 10 value
    then some (map to_upper value)
    else none

unfoldable pub sanitize_position_id : Text → Option Text
sanitize_position_id value =
    if nat_beq (length value) 0 || ltb 32 (length value)
    then none
    else if matches_run is_id_char 32 value
    then some value
    else none

-- `DIRECTION_VALUES` and `DOMINANT_SIDE_VALUES`
abbrev pub is_side : Text → Bool
is_side value =
    text_eq value (codes "BUY") || text_eq value (codes "SELL") || text_eq value (codes "NEUTRAL")

unfoldable pub sanitize_direction : Text → Option Text
sanitize_direction value = if is_side value then some value else none

unfoldable pub sanitize_dominant_side : Text → Option Text
sanitize_dominant_side value = if is_side value then some value else none

-- `MESSAGE_TYPE_VALUES`
unfoldable pub sanitize_message_type : Text → Option Text
sanitize_message_type value =
    if text_eq value (codes "TICK")
      || text_eq value (codes "FILL")
      || text_eq value (codes "REJECT")
      || text_eq value (codes "CLOSED")
      || text_eq value (codes "HEARTBEAT")
    then some value
    else none

unfoldable pub sanitize_description : Text → Option Text
sanitize_description value =
    if nat_beq (length value) 0 || ltb 256 (length value)
    then none
    else (let sanitized = select (leb 32) value in
        if nat_beq (length sanitized) 0 then none else some sanitized)

-- Whether an int lies between two bounds that are not negative.
abbrev pub between : ℕ → ℕ → ℤ → Bool
between low high (pos n) = leb low n && leb n high
between low high (negsuc n) = false

abbrev pub keep_int : Bool → ℤ → Option ℤ
keep_int ok value = if ok then some value else none

unfoldable pub sanitize_volume : ℤ → Option ℤ
sanitize_volume value = keep_int (between 0 1000000 value) value

unfoldable pub sanitize_timestamp_ms : ℤ → Option ℤ
sanitize_timestamp_ms value = keep_int (between 1577836800000 2524608000000 value) value

unfoldable pub sanitize_error_code : ℤ → Option ℤ
sanitize_error_code value = keep_int (between 1 10000 value) value

module _ ⦃F : Floats⦄ where
  unfoldable pub sanitize_numeric_range : Float → Float → Float → Option Float
  sanitize_numeric_range value min_val max_val =
      if min_val ≤? value && value ≤? max_val then some value else none

  unfoldable pub sanitize_price : Float → Option Float
  sanitize_price value = sanitize_numeric_range value (lit 1 5) (lit 100000 0)

  unfoldable pub sanitize_lots : Float → Option Float
  sanitize_lots value = sanitize_numeric_range value (lit 1 2) (lit 100 0)
