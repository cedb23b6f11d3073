-- ===== src/Main/Settles.antt =====
-- What `on_snapshot` of main.py does over a run of the bot, and to scores that reach it.
use ghost_grid.Common.{
  ◌≤◌, ◌≡◌, ◌≢◌, ◌∙◌, ◌⊎◌, sym, ap, true, Option, some, List, [], ◌∷◌, nat_eq, Floats, Float, round,
  mul, lit,
}
use ghost_grid.Positions.Models.{Snapshot}
use ghost_grid.Positions.Exits.{IsValid}
use ghost_grid.Positions.Books.{AllOf}
use ghost_grid.Scoring.Gate.{ConfluenceScore, evaluate}
use ghost_grid.Scoring.Weights.{Table, get_normalized_weights, IsTable}
use ghost_grid.Scoring.Hlcp.Engine.{Ribbons}
use ghost_grid.Scoring.Snapshot.{MarketSnapshot}
use ghost_grid.Scoring.Fusion.{multiplier, weigh, score_confluence}
use ghost_grid.Scoring.Reach.{score_confluence-discard}
use ghost_grid.Main.Pipeline.{
  Bot, LiveSnapshot, Outcome, paused, await_raised, OrderArguments, order_raised, is_auto,
  on_snapshot,
}
use ghost_grid.Main.Guarded.{on_snapshot-IsJustified}

module _ ⦃F : Floats⦄ where
  -- No score that scoring/fusion.py computes comes to an order, under the conditions of its bound.
  pub on_snapshot-unreachable :
      (sqrt : Float → Float) (table : Table) (ribbons : Ribbons) (scored : MarketSnapshot)
      (bot : Bot) (snap : LiveSnapshot) (args : OrderArguments)
      → IsTable table
      → weigh (get_normalized_weights table) 60 60 60 ≤ 60
      → round (mul (lit 60 0) (multiplier scored.regime)) ≤ 63
      → (on_snapshot (some (score_confluence sqrt table ribbons scored).1) bot snap).1
        ≢ order_raised args
  unfolding is_auto
  on_snapshot-unreachable sqrt table ribbons scored bot snap args v sixty scaled e =
      let score : ConfluenceScore = (score_confluence sqrt table ribbons scored).1 in
      let auto : is_auto (evaluate bot.gate score).1 ≡ true =
        (on_snapshot-IsJustified bot snap score args e).1.auto in
      cc (
        sym
          (ap is_auto (score_confluence-discard sqrt table ribbons scored bot.gate v sixty scaled))
        ∙ auto)

  -- A run of the bot: each snapshot with what the scoring of it returns.
  unfoldable pub run_all : Bot → List (Option ConfluenceScore × LiveSnapshot) → Bot × List Outcome
  run_all bot [] = (bot, [])
  run_all bot ((score, snap) ∷ rest) =
      let (bot', outcome) = on_snapshot score bot snap in
      let (bot'', outcomes) = run_all bot' rest in (bot'', outcome ∷ outcomes)

  -- Neither a signal was judged nor a position taken in or let go; the machines are still valid.
  pub record IsIdle (bot bot' : Bot) : Type 0 where
    pub started : bot'.is_started ≡ true
    pub gate : bot'.gate ≡ bot.gate
    pub numbered : bot'.pos_id_counter ≡ bot.pos_id_counter
    pub registry : bot'.books.0 ≡ bot.books.0
    pub held : bot'.books.1.open_positions ≡ bot.books.1.open_positions
    pub breaker : bot'.books.1.circuit_breaker ≡ bot.books.1.circuit_breaker
    pub realized : bot'.books.1.realized_pnl ≡ bot.books.1.realized_pnl
    pub machines : AllOf IsValid bot'.heap

  -- How a run of a started bot ends at each snapshot.
  abbrev pub Stops : Outcome → Type 0
  Stops o = (o ≡ paused) ⊎ (o ≡ await_raised)
