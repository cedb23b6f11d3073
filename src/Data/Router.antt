-- ===== src/Data/Router.antt =====
-- data/feed_router.py: rounds of the tasks, one for each symbol, that take ticks to the builders of snapshots. The
-- queues are those of the reader and are left out: a round starts with the tick that its task got. Whether the
-- callback raises comes from outside, and so does the list of instruments.
use ghost_grid.Common.{
  ℕ, ◌+◌, ◌≡◌, ◌∙◌, refl, sym, ap, String, Bool, true, Bool-cases, inl, inr, if◌then◌else◌, Option,
  none, some, some-injective, List, [], ◌∷◌, ◌==◌, string_eq, Dict, lookup, insert, get_or,
  lookup-insert, Floats,
}
use ghost_grid.Data.Bars.{Tick}
use ghost_grid.Data.Snapshots.{
  SnapshotBuilder, new_builder, Built, warming, raised, produced, build_on_tick,
}

pub record FeedRouterMetrics : Type 0 where
  pub total_snapshots : ℕ
  pub callback_errors : ℕ
  pub symbols_processed : ℕ
  pub per_symbol_counts : Dict String ℕ

module _ ⦃F : Floats⦄ where
  -- The router less its reader and its callback.
  pub record FeedRouter : Type 0 where
    pub builders : Dict String SnapshotBuilder
    pub metrics : FeedRouterMetrics

  -- `{symbol: f(symbol) for symbol in symbols}`, with what the dict has so far.
  unfoldable pub for_each {ℓ} :
      {A : Type ℓ} → (String → A) → Dict String A → List String → Dict String A
  for_each f d [] = d
  for_each f d (symbol ∷ symbols) = for_each f (insert symbol (f symbol) d) symbols

  unfoldable pub new_router : List String → FeedRouter
  new_router symbols = record {
    builders = for_each new_builder [] symbols;
    metrics = record {
      total_snapshots = 0;
      callback_errors = 0;
      symbols_processed = 0;
      per_symbol_counts = for_each (λ _. 0) [] symbols;
    };
  }

  -- What is counted for what a builder made; an exception of the builder is only logged.
  abbrev pub count_built : Bool → String → Built → FeedRouterMetrics → FeedRouterMetrics
  count_built fails symbol warming m = m
  count_built fails symbol raised m = m
  count_built fails symbol (produced snapshot) m = record m {
    total_snapshots = m.total_snapshots + 1;
    per_symbol_counts =
        insert symbol (get_or (lookup symbol m.per_symbol_counts) 0 + 1) m.per_symbol_counts;
    callback_errors = if fails then m.callback_errors + 1 else m.callback_errors;
  }

  -- A tick that the task of a symbol got, with the session by the clock, and whether the callback raises.
  pub record Event : Type 0 where
    pub symbol : String
    pub session : String
    pub tick : Tick
    pub fails : Bool

  -- A round of the task, with its builder.
  abbrev pub round_of : FeedRouter → Event → Option SnapshotBuilder → FeedRouter
  round_of r e none = r
  round_of r e (some builder) =
      let (builder', built) = build_on_tick builder e.session e.tick in
      record {
        builders = insert e.symbol builder' r.builders;
        metrics = count_built e.fails e.symbol built r.metrics;
      }

  -- `_symbol_loop`, one round; a symbol without a builder has no task.
  unfoldable pub symbol_round : FeedRouter → Event → FeedRouter
  symbol_round r e = round_of r e (lookup e.symbol r.builders)

  unfoldable pub symbol_rounds : FeedRouter → List Event → FeedRouter
  symbol_rounds r [] = r
  symbol_rounds r (e ∷ events) = symbol_rounds (symbol_round r e) events

  -- The builder of a symbol after its own ticks alone.
  unfoldable pub alone : String → List Event → SnapshotBuilder → SnapshotBuilder
  alone symbol [] b = b
  alone symbol (e ∷ events) b =
      alone symbol events (if e.symbol == symbol then (build_on_tick b e.session e.tick).0 else b)

  own_builder :
      (r : FeedRouter) (e : Event) (symbol : String) (b : SnapshotBuilder)
      → (e.symbol == symbol) ≡ true
      → lookup symbol r.builders ≡ some b
      → lookup e.symbol r.builders ≡ some b
  own_builder r e symbol b same mine =
      ap (λ (s : String). lookup s r.builders) ((string_eq.same_key_iff e.symbol symbol).0 same)
      ∙ mine

  round_of-alone :
      (r : FeedRouter) (e : Event) (symbol : String) (b : SnapshotBuilder)
      (o : Option SnapshotBuilder)
      → lookup e.symbol r.builders ≡ o
      → lookup symbol r.builders ≡ some b
      → lookup symbol (round_of r e o).builders
        ≡ some (if e.symbol == symbol then (build_on_tick b e.session e.tick).0 else b)
  round_of-alone r e symbol b none found mine = elim (Bool-cases (e.symbol == symbol)) [
    | inl same ↦ absurd (cc (sym found ∙ own_builder r e symbol b same mine))
    | inr other ↦ rw other mine
  ]
  round_of-alone r e symbol b (some c) found mine =
      lookup-insert symbol e.symbol _ r.builders ∙ elim (Bool-cases (e.symbol == symbol)) [
        | inl same ↦ rw same (
            ap (λ (d : SnapshotBuilder). some (build_on_tick d e.session e.tick).0)
              (some-injective c b (sym found ∙ own_builder r e symbol b same mine)))
        | inr other ↦ rw other mine
      ]

  symbol_rounds-alone :
      (r : FeedRouter) (events : List Event) (symbol : String) (b : SnapshotBuilder)
      → lookup symbol r.builders ≡ some b
      → lookup symbol (symbol_rounds r events).builders ≡ some (alone symbol events b)
  unfolding symbol_rounds symbol_round alone
  symbol_rounds-alone r [] symbol b mine = mine
  symbol_rounds-alone r (e ∷ events) symbol b mine =
      symbol_rounds-alone (symbol_round r e) events symbol _
        (round_of-alone r e symbol b (lookup e.symbol r.builders) refl mine)

  -- In any interleaving of the tasks of a new router, whatever callbacks raise, the builder of a
  -- symbol that has one is as after the ticks of this symbol alone.
  pub symbol_rounds-isolated :
      (symbols : List String) (events : List Event) (symbol : String) (b : SnapshotBuilder)
      → lookup symbol (new_router symbols).builders ≡ some b
      → lookup symbol (symbol_rounds (new_router symbols) events).builders
        ≡ some (alone symbol events b)
  symbol_rounds-isolated symbols events symbol b mine =
      symbol_rounds-alone (new_router symbols) events symbol b mine
