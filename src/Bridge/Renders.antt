-- ===== src/Bridge/Renders.antt =====
-- Lines that carry a tick, and the tick that bridge/protocol.py reads from them.
use ghost_grid.Common.{
  ℕ, ◌+◌, ◌≤◌, ◌≡◌, refl, Bool, true, Option, some, [], ◌∷◌, map, All, arith, Floats, Float, length,
  all_of,
}
use ghost_grid.Bridge.Text.{Text, codes, text_eq, parse_int}
use ghost_grid.Bridge.Sanitize.{
  sanitize_symbol, is_symbol_char, matches_run, to_upper, sanitize_dominant_side, sanitize_volume,
  sanitize_timestamp_ms, sanitize_numeric_range, sanitize_price,
}
use ghost_grid.Bridge.Protocol.{
  ParseMetrics, inbound_type, ok, TickMessage, tick_message, parse_tick, parse_fields,
  parse_inbound,
}
use ghost_grid.Bridge.Lines.{IsLine, counted, parse_inbound-fields}
use ghost_grid.Bridge.Ranges.{IsTick, IsPrice}

-- A symbol of one to ten capitals and digits.
pub record IsSymbol (s : Text) : Type 0 where
  pub nonempty : 1 ≤ length s
  pub short_enough : length s ≤ 10
  pub chars : All (λ c. is_symbol_char c ≡ true) s

upper_char : (c : ℕ) → is_symbol_char c ≡ true → to_upper c ≡ c
unfolding is_symbol_char
upper_char c h = ground arith

upper-chars : (s : Text) → All (λ c. is_symbol_char c ≡ true) s → map to_upper s ≡ s
upper-chars [] h = refl
upper-chars (c ∷ s) h = rw (upper_char c h.0, upper-chars s h.1) refl

all_of-chars : (p : ℕ → Bool) (s : Text) → All (λ c. p c ≡ true) s → all_of p s ≡ true
all_of-chars p [] h = refl
all_of-chars p (c ∷ s) h = rw (h.0, all_of-chars p s h.1) refl

sanitize_symbol-id : (s : Text) → IsSymbol s → sanitize_symbol s ≡ some s
unfolding sanitize_symbol matches_run
sanitize_symbol-id s v = ground (
  arith,
  v.nonempty,
  v.short_enough,
  all_of-chars is_symbol_char s v.chars,
  upper-chars s v.chars,
)

module _ ⦃F : Floats⦄ where
  -- Fields that read as the values of a tick.
  pub record Renders (parse_float : Text → Option Float) (t : TickMessage)
      (stamp bid ask volume cvd : Text) : Type 0 where
    pub timestamp : parse_int stamp ≡ some t.timestamp_ms
    pub bid_read : parse_float bid ≡ some t.bid
    pub ask_read : parse_float ask ≡ some t.ask
    pub volume_read : parse_int volume ≡ some t.tick_volume
    pub cvd_read : parse_float cvd ≡ some t.cvd_running

  price-id : (x : Float) → IsPrice x → sanitize_price x ≡ some x
  unfolding sanitize_price sanitize_numeric_range
  price-id x h = rw (h.0, h.1) refl

  parse_tick-Renders :
      (parse_float : Text → Option Float) (t : TickMessage) (stamp bid ask volume cvd : Text)
      → IsSymbol t.symbol
      → IsTick t
      → Renders parse_float t stamp bid ask volume cvd
      → parse_tick parse_float (t.symbol ∷ stamp ∷ bid ∷ ask ∷ volume ∷ t.dominant_side ∷ cvd ∷ [])
        ≡ ok (tick_message t)
  unfolding parse_tick sanitize_timestamp_ms sanitize_volume sanitize_dominant_side
  parse_tick-Renders parse_float t stamp bid ask volume cvd s v r =
      rw
        (
          sanitize_symbol-id t.symbol s,
          r.timestamp,
          v.timestamp,
          r.bid_read,
          r.ask_read,
          price-id t.bid v.bid,
          price-id t.ask v.ask,
          v.spread,
          r.volume_read,
          v.volume,
          v.side,
          r.cvd_read,
        )
        refl

  -- A line, less the spaces around it, that joins the version, TICK, and fields which contain no
  -- separator and read as the values of a tick in range with a symbol of one to ten capitals and
  -- digits, is parsed to that tick, and counted as parsed and as a tick.
  pub tick_line-read :
      (parse_float : Text → Option Float) (m : ParseMetrics) (t : TickMessage)
      (line stamp bid ask volume cvd : Text)
      → IsSymbol t.symbol
      → IsTick t
      → Renders parse_float t stamp bid ask volume cvd
      → IsLine line
          (codes "TICK")
          (t.symbol ∷ stamp ∷ bid ∷ ask ∷ volume ∷ t.dominant_side ∷ cvd ∷ [])
      → parse_inbound parse_float m line
        ≡ (record (counted m) { tick_count = m.tick_count + 1 }, some (tick_message t))
  unfolding parse_fields inbound_type text_eq
  tick_line-read parse_float m t line stamp bid ask volume cvd s v r l =
      rw
        (
          parse_inbound-fields parse_float m line (codes "TICK") _ l,
          parse_tick-Renders parse_float t stamp bid ask volume cvd s v r,
        )
        refl
