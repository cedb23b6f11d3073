-- ===== src/Bridge/Protocol.antt =====
-- bridge/protocol.py: the messages from the terminal and their parser. `float` on a text is a parameter; a
-- warning in the log is left out.
use ghost_grid.Common.{
  ℕ, ◌+◌, Bool, true, false, not, Option, none, some, List, [], ◌∷◌, if◌then◌else◌, Floats, Float,
  ◌<?◌,
}
use ghost_grid.Common.Fixed.{ℤ}
use ghost_grid.Bridge.Text.{Text, codes, text_eq, strip, split, join, parse_int}
use ghost_grid.Bridge.Sanitize.{
  sanitize_symbol, sanitize_position_id, sanitize_direction, sanitize_dominant_side,
  sanitize_description, sanitize_volume, sanitize_timestamp_ms, sanitize_error_code, sanitize_price,
  sanitize_lots,
}

-- Why a message is refused: a field that is missing or no number, or one that is out of range.
pub data Fault : Type 0 where
  parse_fault validation_fault : Fault

pub data Parsed {ℓ} (A : Type ℓ) : Type ℓ where
  ok : A → Parsed A
  fault : Fault → Parsed A

infixl 5 ◌>>=◌
abbrev pub ◌>>=◌ {ℓ κ} : {A : Type ℓ} {B : Type κ} → Parsed A → (A → Parsed B) → Parsed B
ok a >>= f = f a
fault e >>= f = fault e

abbrev pub or_fault {ℓ} : {A : Type ℓ} → Fault → Option A → Parsed A
or_fault e none = fault e
or_fault e (some a) = ok a

-- A field that a sanitizer must accept.
abbrev pub valid {ℓ} : {A : Type ℓ} → Option A → Parsed A
valid o = or_fault validation_fault o

-- A field that must be a number.
abbrev pub number {ℓ} : {A : Type ℓ} → Option A → Parsed A
number o = or_fault parse_fault o

abbrev pub guard : Bool → Fault → Parsed (Unit {0})
guard true e = ok tt
guard false e = fault e

pub record ParseMetrics : Type 0 where
  pub total_parsed : ℕ
  pub parse_errors : ℕ
  pub version_mismatches : ℕ
  pub validation_errors : ℕ
  pub tick_count : ℕ
  pub fill_count : ℕ
  pub reject_count : ℕ
  pub closed_count : ℕ
  pub heartbeat_count : ℕ

unfoldable pub new_parse_metrics : ParseMetrics
new_parse_metrics = record {
  total_parsed = 0;
  parse_errors = 0;
  version_mismatches = 0;
  validation_errors = 0;
  tick_count = 0;
  fill_count = 0;
  reject_count = 0;
  closed_count = 0;
  heartbeat_count = 0;
}

-- The types of inbound messages; any other text is unknown.
pub data InboundType : Type 0 where
  tick_type fill_type reject_type closed_type heartbeat_type unknown_type : InboundType

unfoldable pub inbound_type : Text → InboundType
inbound_type t =
    if text_eq t (codes "TICK")
    then tick_type
    else if text_eq t (codes "FILL")
    then fill_type
    else if text_eq t (codes "REJECT")
    then reject_type
    else if text_eq t (codes "CLOSED")
    then closed_type
    else if text_eq t (codes "HEARTBEAT")
    then heartbeat_type
    else unknown_type

module _ ⦃F : Floats⦄ where
  pub record TickMessage : Type 0 where
    pub symbol : Text
    pub timestamp_ms : ℤ
    pub bid : Float
    pub ask : Float
    pub tick_volume : ℤ
    pub dominant_side : Text
    pub cvd_running : Float

  pub record FillMessage : Type 0 where
    pub position_id : Text
    pub symbol : Text
    pub direction : Text
    pub fill_price : Float
    pub lots : Float
    pub mt5_ticket : ℤ

  pub record RejectMessage : Type 0 where
    pub position_id : Text
    pub error_code : ℤ
    pub description : Text

  pub record ClosedMessage : Type 0 where
    pub position_id : Text
    pub close_price : Float
    pub lots : Float

  pub data Message : Type 0 where
    tick_message : TickMessage → Message
    fill_message : FillMessage → Message
    reject_message : RejectMessage → Message
    closed_message : ClosedMessage → Message
    heartbeat_message : ℤ → Message

  -- The fields are those after the version and the type.
  unfoldable pub parse_tick : (Text → Option Float) → List Text → Parsed Message
  parse_tick parse_float (sym ∷ ts ∷ b ∷ a ∷ v ∷ side ∷ cvd ∷ _) = do
    symbol ← valid (sanitize_symbol sym)
    stamp ← number (parse_int ts)
    timestamp_ms ← valid (sanitize_timestamp_ms stamp)
    raw_bid ← number (parse_float b)
    raw_ask ← number (parse_float a)
    bid ← valid (sanitize_price raw_bid)
    ask ← valid (sanitize_price raw_ask)
    guard (not (ask <? bid)) validation_fault >>= λ _. number (parse_int v) >>= λ volume.
        valid (sanitize_volume volume) >>= λ tick_volume.
        valid (sanitize_dominant_side side) >>= λ dominant_side.
        number (parse_float cvd) >>= λ cvd_running. ok (
          tick_message (record {
            symbol = symbol;
            timestamp_ms = timestamp_ms;
            bid = bid;
            ask = ask;
            tick_volume = tick_volume;
            dominant_side = dominant_side;
            cvd_running = cvd_running;
          }))
  parse_tick parse_float _ = fault parse_fault

  -- Seven fields are asked for, and six are read.
  unfoldable pub parse_fill : (Text → Option Float) → List Text → Parsed Message
  parse_fill parse_float (pid ∷ sym ∷ dir ∷ price ∷ l ∷ ticket ∷ _ ∷ _) = do
    position_id ← valid (sanitize_position_id pid)
    symbol ← valid (sanitize_symbol sym)
    direction ← valid (sanitize_direction dir)
    raw_price ← number (parse_float price)
    fill_price ← valid (sanitize_price raw_price)
    raw_lots ← number (parse_float l)
    lots ← valid (sanitize_lots raw_lots)
    mt5_ticket ← number (parse_int ticket)
    ok (
        fill_message (record {
          position_id = position_id;
          symbol = symbol;
          direction = direction;
          fill_price = fill_price;
          lots = lots;
          mt5_ticket = mt5_ticket;
        }))
  parse_fill parse_float _ = fault parse_fault

  -- The description is what follows the code, with its separators.
  unfoldable pub parse_reject : List Text → Parsed Message
  parse_reject (pid ∷ error ∷ rest) = do
    position_id ← valid (sanitize_position_id pid)
    number_of ← number (parse_int error)
    error_code ← valid (sanitize_error_code number_of)
    description ← valid (sanitize_description (join 124 rest))
    ok (
        reject_message (record {
          position_id = position_id;
          error_code = error_code;
          description = description;
        }))
  parse_reject _ = fault parse_fault

  unfoldable pub parse_closed : (Text → Option Float) → List Text → Parsed Message
  parse_closed parse_float (pid ∷ price ∷ l ∷ _) = do
    position_id ← valid (sanitize_position_id pid)
    raw_price ← number (parse_float price)
    close_price ← valid (sanitize_price raw_price)
    raw_lots ← number (parse_float l)
    lots ← valid (sanitize_lots raw_lots)
    ok (
        closed_message
          (record { position_id = position_id; close_price = close_price; lots = lots }))
  parse_closed parse_float _ = fault parse_fault

  unfoldable pub parse_heartbeat : List Text → Parsed Message
  parse_heartbeat (ts ∷ _) = do
    stamp ← number (parse_int ts)
    timestamp_ms ← valid (sanitize_timestamp_ms stamp)
    ok (heartbeat_message timestamp_ms)
  parse_heartbeat _ = fault parse_fault

  abbrev pub count_message : ParseMetrics → Message → ParseMetrics
  count_message m (tick_message _) = record m { tick_count = m.tick_count + 1 }
  count_message m (fill_message _) = record m { fill_count = m.fill_count + 1 }
  count_message m (reject_message _) = record m { reject_count = m.reject_count + 1 }
  count_message m (closed_message _) = record m { closed_count = m.closed_count + 1 }
  count_message m (heartbeat_message _) = record m { heartbeat_count = m.heartbeat_count + 1 }

  abbrev pub count_fault : ParseMetrics → Fault → ParseMetrics
  count_fault m parse_fault = record m { parse_errors = m.parse_errors + 1 }
  count_fault m validation_fault = record m { validation_errors = m.validation_errors + 1 }

  abbrev pub finish : ParseMetrics → Parsed Message → ParseMetrics × Option Message
  finish m (ok message) = (count_message m message, some message)
  finish m (fault e) = (count_fault m e, none)

  -- What a known type does with its fields.
  unfoldable pub parse_fields :
      (Text → Option Float) → ParseMetrics → InboundType → List Text → ParseMetrics × Option Message
  parse_fields parse_float m tick_type fields = finish m (parse_tick parse_float fields)
  parse_fields parse_float m fill_type fields = finish m (parse_fill parse_float fields)
  parse_fields parse_float m reject_type fields = finish m (parse_reject fields)
  parse_fields parse_float m closed_type fields = finish m (parse_closed parse_float fields)
  parse_fields parse_float m heartbeat_type fields = finish m (parse_heartbeat fields)
  parse_fields parse_float m unknown_type fields = (m, none)

  unfoldable pub parse_parts :
      (Text → Option Float) → ParseMetrics → List Text → ParseMetrics × Option Message
  parse_parts parse_float m (version ∷ type ∷ fields) =
      if text_eq version (codes "V1")
      then parse_fields parse_float (record m { total_parsed = m.total_parsed + 1 })
          (inbound_type type) fields
      else (record m { version_mismatches = m.version_mismatches + 1 }, none)
  parse_parts parse_float m _ = (count_fault m parse_fault, none)

  abbrev pub parse_stripped :
      (Text → Option Float) → ParseMetrics → Text → ParseMetrics × Option Message
  parse_stripped parse_float m [] = (count_fault m parse_fault, none)
  parse_stripped parse_float m (c ∷ s) = parse_parts parse_float m (split 124 (c ∷ s))

  unfoldable pub parse_inbound :
      (Text → Option Float) → ParseMetrics → Text → ParseMetrics × Option Message
  parse_inbound parse_float m raw = parse_stripped parse_float m (strip raw)
