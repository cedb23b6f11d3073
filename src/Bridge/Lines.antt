-- ===== src/Bridge/Lines.antt =====
-- What bridge/protocol.py makes of a line: which fields are read, which messages come out, what is counted.
use ghost_grid.Common.{
  ℕ, ◌+◌, ◌≤◌, ◌≡◌, refl, true, false, Option, none, some, List, [], ◌∷◌, All, if◌then◌else◌, arith,
  Floats, Float,
}
use ghost_grid.Bridge.Text.{
  Text, codes, text_eq, text_eq_iff, strip, split, join, Lacks, split-join,
}
use ghost_grid.Bridge.Protocol.{
  Parsed, ok, fault, ParseMetrics, InboundType, unknown_type, fill_type, reject_type, inbound_type,
  Message, tick_message, fill_message, reject_message, closed_message, heartbeat_message,
  parse_fill, finish, parse_fields, parse_parts, parse_stripped, parse_inbound, parse_fault,
  validation_fault, tick_type, closed_type, heartbeat_type,
}

-- The messages that came out, and the lines refused.
abbrev pub messages : ParseMetrics → ℕ
messages m = m.tick_count + m.fill_count + m.reject_count + m.closed_count + m.heartbeat_count

abbrev pub faults : ParseMetrics → ℕ
faults m = m.parse_errors + m.version_mismatches + m.validation_errors

abbrev pub as_count {ℓ} : {A : Type ℓ} → Option A → ℕ
as_count none = 0
as_count (some _) = 1

-- A line, less the spaces around it, with a version, a type and fields.
pub record IsLine (line type : Text) (fields : List Text) : Type 0 where
  pub text : strip line ≡ join 124 (codes "V1" ∷ type ∷ fields)
  pub separated : All (Lacks 124) (type ∷ fields)

version-Lacks : Lacks 124 (codes "V1")
version-Lacks = (omega arith, (omega arith, tt))

version-text_eq : text_eq (codes "V1") (codes "V1") ≡ true
version-text_eq = (text_eq_iff (codes "V1") (codes "V1")).1 refl

module _ ⦃F : Floats⦄ where
  abbrev pub counted : ParseMetrics → ParseMetrics
  counted m = record m { total_parsed = m.total_parsed + 1 }

  pub parse_inbound-fields :
      (parse_float : Text → Option Float) (m : ParseMetrics) (line type : Text) (fields : List Text)
      → IsLine line type fields
      → parse_inbound parse_float m line
        ≡ parse_fields parse_float (counted m) (inbound_type type) fields
  unfolding parse_inbound parse_parts join
  parse_inbound-fields parse_float m line type fields v =
      rw
        (
          v.text,
          split-join 124 (codes "V1") (type ∷ fields) version-Lacks v.separated,
          version-text_eq,
        )
        refl

  pub IsOutcome : ParseMetrics → ParseMetrics × Option Message → Type 0
  IsOutcome m (m', o) =
      (messages m' ≡ messages m + as_count o)
      × (messages m' + faults m' ≤ messages m + faults m + 1)

  finish-IsOutcome : (m : ParseMetrics) (p : Parsed Message) → IsOutcome m (finish m p)
  unfolding IsOutcome
  finish-IsOutcome m (ok (tick_message _)) = (omega arith, omega arith)
  finish-IsOutcome m (ok (fill_message _)) = (omega arith, omega arith)
  finish-IsOutcome m (ok (reject_message _)) = (omega arith, omega arith)
  finish-IsOutcome m (ok (closed_message _)) = (omega arith, omega arith)
  finish-IsOutcome m (ok (heartbeat_message _)) = (omega arith, omega arith)
  finish-IsOutcome m (fault parse_fault) = (omega arith, omega arith)
  finish-IsOutcome m (fault validation_fault) = (omega arith, omega arith)

  parse_fields-IsOutcome :
      (parse_float : Text → Option Float) (m : ParseMetrics) (type : InboundType)
      (fields : List Text)
      → IsOutcome m (parse_fields parse_float m type fields)
  unfolding parse_fields IsOutcome
  parse_fields-IsOutcome parse_float m tick_type fields = finish-IsOutcome m _
  parse_fields-IsOutcome parse_float m fill_type fields = finish-IsOutcome m _
  parse_fields-IsOutcome parse_float m reject_type fields = finish-IsOutcome m _
  parse_fields-IsOutcome parse_float m closed_type fields = finish-IsOutcome m _
  parse_fields-IsOutcome parse_float m heartbeat_type fields = finish-IsOutcome m _
  parse_fields-IsOutcome parse_float m unknown_type fields = (omega arith, omega arith)

  parse_parts-IsOutcome :
      (parse_float : Text → Option Float) (m : ParseMetrics) (parts : List Text)
      → IsOutcome m (parse_parts parse_float m parts)
  unfolding parse_parts IsOutcome
  parse_parts-IsOutcome parse_float m [] = (omega arith, omega arith)
  parse_parts-IsOutcome parse_float m (version ∷ []) = (omega arith, omega arith)
  parse_parts-IsOutcome parse_float m (version ∷ type ∷ fields) =
      elim (text_eq version (codes "V1"))
        as (λ b. IsOutcome m (
          if b
          then parse_fields parse_float (counted m) (inbound_type type) fields
          else (record m { version_mismatches = m.version_mismatches + 1 }, none))) [
            | true ↦ parse_fields-IsOutcome parse_float (counted m) (inbound_type type) fields
            | false ↦ (omega arith, omega arith)
          ]

  -- A line counts one message exactly when one is returned, and counts a message or a fault at most
  -- once in all.
  pub parse_inbound-IsOutcome :
      (parse_float : Text → Option Float) (m : ParseMetrics) (line : Text)
      → IsOutcome m (parse_inbound parse_float m line)
  unfolding parse_inbound IsOutcome
  parse_inbound-IsOutcome parse_float m line =
      elim (strip line) as (λ s. IsOutcome m (parse_stripped parse_float m s)) [
        | [] ↦ (omega arith, omega arith)
        | c ∷ s ↦ parse_parts-IsOutcome parse_float m (split 124 (c ∷ s))
      ]

  -- A line, less the spaces around it, that joins the version, FILL and the six documented fields,
  -- none of which contains a separator, gives no message and one parse error.
  pub fill_line-refused :
      (parse_float : Text → Option Float) (m : ParseMetrics)
      (line pid symbol direction price lots ticket : Text)
      → IsLine line (codes "FILL") (pid ∷ symbol ∷ direction ∷ price ∷ lots ∷ ticket ∷ [])
      → parse_inbound parse_float m line
        ≡ (record (counted m) { parse_errors = m.parse_errors + 1 }, none)
  unfolding parse_fields parse_fill inbound_type text_eq
  fill_line-refused parse_float m line pid symbol direction price lots ticket v =
      parse_inbound-fields parse_float m line (codes "FILL") _ v
