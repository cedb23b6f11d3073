-- ===== src/Db/Recovery.antt =====
-- db/recovery.py: what is rebuilt from the rows of the database. The queries are outside: the rows of the
-- open positions come in, none where the reader raises, as does what SELECT MAX(id) gives.
use ghost_grid.Common.{
  ℕ, ◌+◌, ◌≡◌, ◌∙◌, refl, sym, ap, String, Bool-cases, inl, inr, Option, none, some, List, [], ◌∷◌,
  ◌++◌, append_assoc, append-nil, length, select, if◌then◌else◌, arith, ◌==◌, string_eq, Dict,
  lookup, insert, get_or, lookup-insert,
}

pub record RecoveryMetrics : Type 0 where
  pub recovery_events : ℕ
  pub positions_recovered : ℕ
  pub recovery_errors : ℕ

-- `get_next_position_id`, from the row of the query and the maximum in it.
unfoldable pub get_next_position_id : Option (Option ℕ) → ℕ
get_next_position_id (some (some max_id)) = max_id + 1
get_next_position_id _ = 1

module _ {Row : Type 0} (symbol_of : Row → String) where
  -- One round of the loop that groups the positions.
  abbrev pub add_to_group : Dict String (List Row) → Row → Dict String (List Row)
  add_to_group groups pos =
      insert (symbol_of pos) (get_or (lookup (symbol_of pos) groups) [] ++ pos ∷ []) groups

  unfoldable pub group_from : Dict String (List Row) → List Row → Dict String (List Row)
  group_from groups [] = groups
  group_from groups (pos ∷ positions) = group_from (add_to_group groups pos) positions

  -- What `recover_state` returns, without the statistics of the reader.
  pub record Recovered : Type 0 where
    pub open_positions : List Row
    pub positions_by_symbol : Dict String (List Row)
    pub position_count : ℕ
    pub recovery_event_count : ℕ

  -- `recover_state`; none is its RuntimeError.
  abbrev pub recover_rows : RecoveryMetrics → Option (List Row) → RecoveryMetrics × Option Recovered
  recover_rows m none = (record m { recovery_errors = m.recovery_errors + 1 }, none)
  recover_rows m (some rows) = (
    record m { positions_recovered = length rows },
    some (record {
      open_positions = rows;
      positions_by_symbol = group_from [] rows;
      position_count = length rows;
      recovery_event_count = m.recovery_events;
    }),
  )

  unfoldable pub recover_state :
      RecoveryMetrics → Option (List Row) → RecoveryMetrics × Option Recovered
  recover_state m rows = recover_rows (record m { recovery_events = m.recovery_events + 1 }) rows

  -- The rows of a symbol, in order.
  abbrev pub rows_of : String → List Row → List Row
  rows_of symbol = select (λ (pos : Row). symbol_of pos == symbol)

  abbrev pub group_of : String → Dict String (List Row) → List Row
  group_of symbol groups = get_or (lookup symbol groups) []

  add-group_of :
      (groups : Dict String (List Row)) (pos : Row) (symbol : String)
      → group_of symbol (add_to_group groups pos) ≡ (
          if symbol_of pos == symbol
          then group_of (symbol_of pos) groups ++ pos ∷ []
          else group_of symbol groups)
  add-group_of groups pos symbol = ground (
    arith,
    lookup-insert symbol (symbol_of pos) (group_of (symbol_of pos) groups ++ pos ∷ []) groups,
  )

  group_from-rows :
      (positions : List Row) (groups : Dict String (List Row)) (symbol : String)
      → group_of symbol (group_from groups positions)
        ≡ group_of symbol groups ++ rows_of symbol positions
  unfolding group_from
  group_from-rows [] groups symbol = sym (append-nil _)
  group_from-rows (pos ∷ positions) groups symbol =
      group_from-rows positions (add_to_group groups pos) symbol
      ∙ ap (λ g. g ++ rows_of symbol positions) (add-group_of groups pos symbol)
      ∙ elim (Bool-cases (symbol_of pos == symbol)) [
        | inl same ↦
            rw (same, append_assoc)
              (ap (λ s. group_of s groups ++ pos ∷ rows_of symbol positions)
                ((string_eq.same_key_iff (symbol_of pos) symbol).0 same))
        | inr other ↦ rw other refl
      ]

  -- What a recovery returns: all rows, their number, and for each symbol the rows of that symbol in order.
  pub record IsRecovered (m : RecoveryMetrics) (rows : List Row) (r : Recovered) : Type 0 where
    pub all : r.open_positions ≡ rows
    pub number : r.position_count ≡ length rows
    pub groups : (symbol : String) → group_of symbol r.positions_by_symbol ≡ rows_of symbol rows
    pub event : r.recovery_event_count ≡ m.recovery_events + 1

  -- Where the reader gives the open positions, a recovery returns them all, their number, under each
  -- symbol in order exactly those of that symbol, and its own count; the errors counted are as
  -- before.
  pub recover_state-IsRecovered :
      (m : RecoveryMetrics) (rows : List Row)
      → let (m', result) = recover_state m (some rows) in
        ((r : Recovered) × (result ≡ some r) × IsRecovered m rows r)
        × (m'.recovery_errors ≡ m.recovery_errors)
        × (m'.positions_recovered ≡ length rows)
  unfolding recover_state
  recover_state-IsRecovered m rows = (
    (
      _,
      refl,
      record {
        all = refl;
        number = refl;
        groups = λ symbol. group_from-rows rows [] symbol ∙ unfold lookup in refl;
        event = refl;
      },
    ),
    refl,
    refl,
  )
