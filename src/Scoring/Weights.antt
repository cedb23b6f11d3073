-- ===== src/Scoring/Weights.antt =====
-- scoring/bayesian_weights.py. The table of the database is a dict of rows; the strategies are the three
-- names that the callers pass, which `upper` leaves alone.
use ghost_grid.Common.{
  ℕ, ◌+◌, ◌≡◌, ◌↔◌, refl, Bool, true, false, not, ◌&&◌, List, [], ◌∷◌, arith, nat_beq,
  if◌then◌else◌, Key, ◌==◌, Dict, lookup, insert, get_or, lookup-insert, Floats, Float, ◌≤?◌,
  zero_f, lit, add, div, lte_refl,
}
use ghost_grid.Positions.Machine.{Strategy, hmp, hlcp, mpp}

abbrev pub strategy_code : Strategy → ℕ
strategy_code hmp = 0
strategy_code hlcp = 1
strategy_code mpp = 2

pub strategy_code_iff :
    (a b : Strategy) → (nat_beq (strategy_code a) (strategy_code b) ≡ true) ↔ (a ≡ b)
strategy_code_iff hmp b = ground arith
strategy_code_iff hlcp b = ground arith
strategy_code_iff mpp b = ground arith

instance abbrev pub strategy_eq : Key Strategy
strategy_eq = record {
  same_key = λ a b. nat_beq (strategy_code a) (strategy_code b);
  same_key_iff = strategy_code_iff;
}

abbrev same_outcome : Bool → Bool → Bool
same_outcome true b = b
same_outcome false b = not b

-- How often a strategy has had an outcome.
abbrev pub count_outcomes : Strategy → Bool → List (Strategy × Bool) → ℕ
count_outcomes s b [] = 0
count_outcomes s b ((strategy, won) ∷ rest) =
    (if strategy == s && same_outcome won b then 1 else 0) + count_outcomes s b rest

module _ ⦃F : Floats⦄ where
  pub record Row : Type 0 where
    pub wins : ℕ
    pub losses : ℕ
    pub alpha : Float
    pub beta : Float

  abbrev pub Table : Type 0
  Table = Dict Strategy Row

  abbrev pub fresh_row : Row
  fresh_row = record { wins = 0; losses = 0; alpha = lit 1 0; beta = lit 1 0 }

  abbrev pub row_of : Table → Strategy → Row
  row_of table strategy = get_or (lookup strategy table) fresh_row

  abbrev pub next_row : Row → Bool → Row
  next_row r true = record r { wins = r.wins + 1; alpha = add r.alpha (lit 1 0) }
  next_row r false = record r { losses = r.losses + 1; beta = add r.beta (lit 1 0) }

  -- `BayesianWeightUpdater.update`
  unfoldable pub update_weight : Table → Strategy → Bool → Table
  update_weight table strategy won = insert strategy (next_row (row_of table strategy) won) table

  pub record Weights : Type 0 where
    pub hmp_weight : Float
    pub hlcp_weight : Float
    pub mpp_weight : Float

  abbrev pub raw_weight : Row → Float
  raw_weight r = div r.alpha (add r.alpha r.beta)

  -- `get_normalized_weights`
  unfoldable pub get_normalized_weights : Table → Weights
  get_normalized_weights table =
      let a = raw_weight (row_of table hmp) in
      let b = raw_weight (row_of table hlcp) in
      let c = raw_weight (row_of table mpp) in
      let totals = add (add (add zero_f a) b) c in
      let third = div (lit 1 0) (lit 3 0) in
      if totals ≤? zero_f
      then record { hmp_weight = third; hlcp_weight = third; mpp_weight = third }
      else record {
        hmp_weight = div a totals;
        hlcp_weight = div b totals;
        mpp_weight = div c totals;
      }

  -- The outcomes that positions report, in order.
  unfoldable pub update_weights : Table → List (Strategy × Bool) → Table
  update_weights table [] = table
  update_weights table ((strategy, won) ∷ rest) =
      update_weights (update_weight table strategy won) rest

  abbrev pub IsNonneg : Float → Type 0
  IsNonneg a = (zero_f ≤? a) ≡ true

  -- The parameters of every strategy are not negative.
  pub record IsTable (table : Table) : Type 0 where
    pub alphas : (s : Strategy) → IsNonneg (row_of table s).alpha
    pub betas : (s : Strategy) → IsNonneg (row_of table s).beta

  row-update_weight :
      (table : Table) (strategy s : Strategy) (won : Bool)
      → row_of (update_weight table strategy won) s
        ≡ (if strategy == s then next_row (row_of table strategy) won else row_of table s)
  unfolding update_weight
  row-update_weight table strategy s won =
      ground (arith, lookup-insert s strategy (next_row (row_of table strategy) won) table)

  next_row-counts :
      (r : Row) (won : Bool)
      → ((next_row r won).wins ≡ (if won then r.wins + 1 else r.wins))
        × ((next_row r won).losses ≡ (if won then r.losses else r.losses + 1))
  next_row-counts r true = (refl, refl)
  next_row-counts r false = (refl, refl)

  update_weight-counts :
      (table : Table) (strategy s : Strategy) (won : Bool)
      → let r = row_of (update_weight table strategy won) s in
        (r.wins ≡ (row_of table s).wins + (if strategy == s && same_outcome won true then 1 else 0))
        × (r.losses
            ≡ (row_of table s).losses + (if strategy == s && same_outcome won false then 1 else 0))
  update_weight-counts table strategy s won =
      rw (row-update_weight table strategy s won)
        (ground (arith, strategy_code_iff strategy s, next_row-counts (row_of table strategy) won))

  -- After any sequence of outcomes, the wins and losses of each strategy have grown by the number of
  -- its wins and losses in the sequence.
  pub update_weights-counts :
      (table : Table) (outcomes : List (Strategy × Bool)) (s : Strategy)
      → let r = row_of (update_weights table outcomes) s in
        (r.wins ≡ (row_of table s).wins + count_outcomes s true outcomes)
        × (r.losses ≡ (row_of table s).losses + count_outcomes s false outcomes)
  unfolding update_weights
  update_weights-counts table [] s = (omega arith, omega arith)
  update_weights-counts table ((strategy, won) ∷ rest) s =
      let (w, l) = update_weights-counts (update_weight table strategy won) rest s in
      let (w', l') = update_weight-counts table strategy s won in
      (omega (arith, w, w'), omega (arith, l, l'))

  next_row-IsNonneg :
      (r : Row) (won : Bool)
      → IsNonneg r.alpha
      → IsNonneg r.beta
      → IsNonneg (next_row r won).alpha × IsNonneg (next_row r won).beta
  next_row-IsNonneg r true a b = (F.add-nonneg r.alpha (lit 1 0) a (F.lit-nonneg 1 0), b)
  next_row-IsNonneg r false a b = (a, F.add-nonneg r.beta (lit 1 0) b (F.lit-nonneg 1 0))

  pub empty-IsTable : IsTable []
  unfolding lookup
  empty-IsTable = record { alphas = λ s. F.lit-nonneg 1 0; betas = λ s. F.lit-nonneg 1 0 }

  pub update_weight-IsTable :
      (table : Table) (strategy : Strategy) (won : Bool)
      → IsTable table
      → IsTable (update_weight table strategy won)
  update_weight-IsTable table strategy won v = record {
    alphas = λ s.
        rw (row-update_weight table strategy s won)
          (elim (strategy == s)
            as (λ b.
              IsNonneg (if b then next_row (row_of table strategy) won else row_of table s).alpha) [
                | true ↦
                    (next_row-IsNonneg (row_of table strategy) won (v.alphas strategy)
                      (v.betas strategy)).0
                | false ↦ v.alphas s
              ]);
    betas = λ s.
        rw (row-update_weight table strategy s won)
          (elim (strategy == s)
            as (λ b.
              IsNonneg (if b then next_row (row_of table strategy) won else row_of table s).beta) [
                | true ↦
                    (next_row-IsNonneg (row_of table strategy) won (v.alphas strategy)
                      (v.betas strategy)).1
                | false ↦ v.betas s
              ]);
  }

  pub record IsWeights (w : Weights) : Type 0 where
    pub hmp : IsNonneg w.hmp_weight
    pub hlcp : IsNonneg w.hlcp_weight
    pub mpp : IsNonneg w.mpp_weight

  raw_weight-IsNonneg : (r : Row) → IsNonneg r.alpha → IsNonneg r.beta → IsNonneg (raw_weight r)
  raw_weight-IsNonneg r a b =
      F.div-nonneg r.alpha (add r.alpha r.beta) a (F.add-nonneg r.alpha r.beta a b)

  pub get_normalized_weights-IsWeights :
      (table : Table) → IsTable table → IsWeights (get_normalized_weights table)
  unfolding get_normalized_weights
  get_normalized_weights-IsWeights table v =
      elim (totals ≤? zero_f)
        as (λ b. IsWeights (
          if b
          then record { hmp_weight = third; hlcp_weight = third; mpp_weight = third }
          else record {
            hmp_weight = div a totals;
            hlcp_weight = div b' totals;
            mpp_weight = div c totals;
          })) [
            | true ↦ record { hmp = third_nonneg; hlcp = third_nonneg; mpp = third_nonneg }
            | false ↦ record {
              hmp = F.div-nonneg a totals ha ht;
              hlcp = F.div-nonneg b' totals hb ht;
              mpp = F.div-nonneg c totals hc ht;
            }
          ]
    where
      a : Float
      a = raw_weight (row_of table hmp)

      b' : Float
      b' = raw_weight (row_of table hlcp)

      c : Float
      c = raw_weight (row_of table mpp)

      totals : Float
      totals = add (add (add zero_f a) b') c

      third : Float
      third = div (lit 1 0) (lit 3 0)

      third_nonneg : IsNonneg third
      third_nonneg = F.div-nonneg (lit 1 0) (lit 3 0) (F.lit-nonneg 1 0) (F.lit-nonneg 3 0)

      ha : IsNonneg a
      ha = raw_weight-IsNonneg (row_of table hmp) (v.alphas hmp) (v.betas hmp)

      hb : IsNonneg b'
      hb = raw_weight-IsNonneg (row_of table hlcp) (v.alphas hlcp) (v.betas hlcp)

      hc : IsNonneg c
      hc = raw_weight-IsNonneg (row_of table mpp) (v.alphas mpp) (v.betas mpp)

      ht : IsNonneg totals
      ht = F.add-nonneg _ c (F.add-nonneg _ b' (F.add-nonneg zero_f a (lte_refl zero_f) ha) hb) hc
