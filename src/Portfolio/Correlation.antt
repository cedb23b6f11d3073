-- ===== src/Portfolio/Correlation.antt =====
-- portfolio/correlation.py: the windows of recent prices and the average correlation of the pairs of symbols that
-- are held. The square root and the order in which Python's set lists the symbols are parameters.
use ghost_grid.Common.{
  ◌>>=◌, ℕ, ◌≡◌, ◌∙◌, refl, sym, ap, String, Bool, true, Bool-cases, if-cases, ◌-◌, drop-nil, inl,
  inr, if◌then◌else◌, Option, none, some, List, [], ◌∷◌, ◌++◌, map, ltb, length, drop, last_n, not,
  ◌||◌, nat_beq, all_of, last_n-snoc, append-nil, append_assoc, ◌==◌, nat_eq, string_eq, Dict,
  lookup, insert, get_or, values, lookup-insert, arith, Floats, Float, ◌≤?◌, ◌<?◌, ◌=?◌, zero_f,
  lit, sub, mul, div, abs, fmin, fmin-le_right, sum_from, sum_from-nonneg, lte_refl,
}
use ghost_grid.Portfolio.State.{Machines, PortfolioState}

-- `set(xs)`, as a list without repetitions.
unfoldable pub distinct : List String → List String
distinct [] = []
distinct (x ∷ xs) =
    let rest = distinct xs in if all_of (λ y. not (y == x)) rest then x ∷ rest else rest

module _ ⦃F : Floats⦄ where
  abbrev mean : List Float → Float
  mean xs = div (sum_from zero_f xs) (lit (length xs) 0)

  -- The products of the deviations of two lists of one length.
  abbrev pub products : Float → Float → List Float → List Float → List Float
  products m1 m2 (x ∷ xs) (y ∷ ys) = mul (sub x m1) (sub y m2) ∷ products m1 m2 xs ys
  products m1 m2 _ _ = []

  unfoldable pub calculate_correlation : (Float → Float) → List Float → List Float → Option Float
  calculate_correlation root values1 values2 =
      if ltb (length values1) 2 || ltb (length values2) 2
      then none
      else if not (nat_beq (length values1) (length values2))
      then none
      else (let mean1 = mean values1 in
          let mean2 = mean values2 in
          let numerator = sum_from zero_f (products mean1 mean2 values1 values2) in
          let variance1 = sum_from zero_f (products mean1 mean1 values1 values1) in
          let variance2 = sum_from zero_f (products mean2 mean2 values2 values2) in
          let denominator = root (mul variance1 variance2) in
          if denominator =? zero_f then none else some (div numerator denominator))

  pub record CorrelationEngine : Type 0 where
    pub window_size : ℕ
    pub price_windows : Dict String (List Float)

  unfoldable pub new_correlation : ℕ → CorrelationEngine
  new_correlation window_size = record { window_size = window_size; price_windows = [] }

  unfoldable pub record_price : CorrelationEngine → String → Float → CorrelationEngine
  record_price e symbol price =
      let window = get_or (lookup symbol e.price_windows) [] ++ price ∷ [] in
      record e {
        price_windows =
            insert symbol (if ltb e.window_size (length window) then drop 1 window else window)
              e.price_windows;
      }

  -- The symbols of the machines that are held.
  unfoldable pub held_symbols : Machines → List ℕ → List String
  held_symbols heap [] = []
  held_symbols heap (r ∷ refs) =
      let rest = held_symbols heap refs in
      elim (lookup r heap) [ none ↦ rest | some m ↦ m.symbol ∷ rest ]

  -- The correlation of two symbols over the shorter one of their windows.
  unfoldable pub pair_correlation :
      (Float → Float) → Dict String (List Float) → String → String → Option Float
  pair_correlation root windows sym1 sym2 = do
    prices1 ← lookup sym1 windows
    prices2 ← lookup sym2 windows
    let min_len = if ltb (length prices2) (length prices1) then length prices2 else length prices1
    if ltb (length prices1) 2 || ltb (length prices2) 2
        then none
        else calculate_correlation root (last_n min_len prices1) (last_n min_len prices2)

  -- One symbol with the symbols after it; a pair without a correlation is passed over.
  unfoldable pub correlations_with :
      (Float → Float) → Dict String (List Float) → String → List String → List Float
  correlations_with root windows sym1 [] = []
  correlations_with root windows sym1 (sym2 ∷ symbols) =
      let rest = correlations_with root windows sym1 symbols in
      elim (pair_correlation root windows sym1 sym2) [ none ↦ rest | some corr ↦ corr ∷ rest ]

  unfoldable pub correlations :
      (Float → Float) → Dict String (List Float) → List String → List Float
  correlations root windows [] = []
  correlations root windows (s ∷ symbols) =
      correlations_with root windows s symbols ++ correlations root windows symbols

  abbrev average : List Float → Float
  average [] = zero_f
  average (c ∷ cs) =
      fmin (div (sum_from zero_f (map abs (c ∷ cs))) (lit (length (c ∷ cs)) 0)) (lit 1 0)

  -- `list(set(symbols))`
  abbrev symbols_in : (List String → List String) → Machines → PortfolioState → List String
  symbols_in order heap state = order (distinct (held_symbols heap (values state.open_positions)))

  unfoldable pub compute_portfolio_correlation :
      (Float → Float)
      → (List String → List String)
      → Machines
      → CorrelationEngine
      → PortfolioState
      → Float
  compute_portfolio_correlation root order heap e state =
      if ltb (length state.open_positions) 2
      then zero_f
      else (let symbols = symbols_in order heap state in
          if ltb (length symbols) 2
          then zero_f
          else average (correlations root e.price_windows symbols))

  unfoldable pub update_state :
      (Float → Float)
      → (List String → List String)
      → Machines
      → CorrelationEngine
      → PortfolioState
      → PortfolioState
  update_state root order heap e state = record state {
    avg_pair_correlation = compute_portfolio_correlation root order heap e state;
  }

  unfoldable pub is_high_correlation : PortfolioState → Float → Bool
  is_high_correlation state threshold = threshold <? state.avg_pair_correlation

  unfoldable pub reset : CorrelationEngine → CorrelationEngine
  reset e = record e { price_windows = [] }

  -- What is recorded between two computations, in order.
  unfoldable pub record_all : CorrelationEngine → List (String × Float) → CorrelationEngine
  record_all e [] = e
  record_all e ((symbol, price) ∷ rest) = record_all (record_price e symbol price) rest

  -- The window of a symbol; one that is missing is empty.
  abbrev pub window_of : CorrelationEngine → String → List Float
  window_of e symbol = get_or (lookup symbol e.price_windows) []

  -- The prices of a symbol.
  unfoldable pub prices_of : String → List (String × Float) → List Float
  prices_of symbol [] = []
  prices_of symbol ((s, price) ∷ rest) =
      let others = prices_of symbol rest in if s == symbol then price ∷ others else others

  grown : CorrelationEngine → String → Float → List Float
  grown e s price =
      let window = window_of e s ++ price ∷ [] in
      if ltb e.window_size (length window) then drop 1 window else window

  grown-window :
      (e : CorrelationEngine) (seen : List Float) (s : String) (price : Float) (symbol : String)
      → (s == symbol) ≡ true
      → window_of e symbol ≡ last_n e.window_size seen
      → grown e s price ≡ last_n e.window_size (seen ++ price ∷ [])
  unfolding grown
  grown-window e seen s price symbol same h =
      ap
        (λ (w : List Float).
          let window = w ++ price ∷ [] in
          if ltb e.window_size (length window) then drop 1 window else window)
        (ap (window_of e) ((string_eq.same_key_iff s symbol).0 same) ∙ h)
      ∙ last_n-snoc e.window_size seen price

  record_price-window :
      (e : CorrelationEngine) (seen : List Float) (s : String) (price : Float) (symbol : String)
      → window_of e symbol ≡ last_n e.window_size seen
      → window_of (record_price e s price) symbol
        ≡ last_n e.window_size (seen ++ prices_of symbol ((s, price) ∷ []))
  unfolding record_price prices_of grown
  record_price-window e seen s price symbol h =
      ap (λ (o : Option (List Float)). get_or o []) (lookup-insert symbol s _ e.price_windows)
      ∙ elim (Bool-cases (s == symbol)) [
        | inl same ↦ rw same (grown-window e seen s price symbol same h)
        | inr other ↦ rw other (rw (append-nil seen) h)
      ]

  prices_of-cons :
      (seen : List Float) (symbol s : String) (price : Float) (rest : List (String × Float))
      → (seen ++ prices_of symbol ((s, price) ∷ [])) ++ prices_of symbol rest
        ≡ seen ++ prices_of symbol ((s, price) ∷ rest)
  unfolding prices_of
  prices_of-cons seen symbol s price rest =
      append_assoc seen (prices_of symbol ((s, price) ∷ [])) (prices_of symbol rest)
      ∙ ap (λ ys. seen ++ ys)
          (elim (Bool-cases (s == symbol)) [ inl same ↦ rw same refl | inr other ↦ rw other refl ])

  windows_from :
      (e : CorrelationEngine) (seen : List Float) (prices : List (String × Float)) (symbol : String)
      → window_of e symbol ≡ last_n e.window_size seen
      → window_of (record_all e prices) symbol
        ≡ last_n e.window_size (seen ++ prices_of symbol prices)
  unfolding record_all record_price prices_of
  windows_from e seen [] symbol h = rw (append-nil seen) h
  windows_from e seen ((s, price) ∷ rest) symbol h =
      windows_from (record_price e s price) (seen ++ prices_of symbol ((s, price) ∷ [])) rest symbol
        (record_price-window e seen s price symbol h)
      ∙ ap (last_n e.window_size) (prices_of-cons seen symbol s price rest)

  -- After any prices recorded by a new engine, the window of each symbol holds the last ones of the
  -- prices recorded for this symbol, as many as the size of the window.
  pub record_all-window :
      (window_size : ℕ) (prices : List (String × Float)) (symbol : String)
      → window_of (record_all (new_correlation window_size) prices) symbol
        ≡ last_n window_size (prices_of symbol prices)
  unfolding new_correlation lookup
  record_all-window window_size prices symbol =
      windows_from (new_correlation window_size) [] prices symbol (sym (drop-nil (0 - window_size)))

  unfoldable pub IsUnit : Float → Type 0
  IsUnit x = (zero_f ≤? x) ≡ true × ((x ≤? lit 1 0) ≡ true)

  average-IsUnit : (cs : List Float) → IsUnit (average cs)
  unfolding IsUnit
  average-IsUnit [] = (lte_refl zero_f, F.lit-nonneg 1 0)
  average-IsUnit (c ∷ cs) = (ground (arith, quotient, F.lit-nonneg 1 0), fmin-le_right _ (lit 1 0))
    where
      quotient :
          (zero_f ≤? div (sum_from zero_f (map abs (c ∷ cs))) (lit (length (c ∷ cs)) 0)) ≡ true
      quotient =
          F.div-nonneg _ _ (sum_from-nonneg zero_f (c ∷ cs) (lte_refl zero_f))
            (F.lit-nonneg (length (c ∷ cs)) 0)

  -- Whatever the prices, the positions, the square root and the order of the symbols, the average
  -- correlation that is written into the state is from 0 to 1.
  pub update_state-IsUnit :
      (root : Float → Float) (order : List String → List String) (heap : Machines)
      (e : CorrelationEngine) (state : PortfolioState)
      → IsUnit (update_state root order heap e state).avg_pair_correlation
  unfolding update_state compute_portfolio_correlation
  update_state-IsUnit root order heap e state =
      if-cases IsUnit (ltb (length state.open_positions) 2) (λ _. average-IsUnit [])
        (λ _.
          if-cases IsUnit (ltb (length (symbols_in order heap state)) 2) (λ _. average-IsUnit [])
            (λ _. average-IsUnit (correlations root e.price_windows (symbols_in order heap state))))
