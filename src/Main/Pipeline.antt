-- ===== src/Main/Pipeline.antt =====
-- main.py: `on_snapshot` and `_next_position_id`, with the globals as one state. What score_confluence returns
-- comes in, none where it raises. Persisting, alerts and the journal are left out. With the registry set, the
-- function ends at the await of the exits, so that the loop over them never runs. The constructor of ValidatedOrder takes other arguments than main.py gives it, so that an order ends there, by
-- TypeError; what follows that call is left out.
use ghost_grid.Common.{
  ℕ, ◌+◌, String, Bool, true, false, not, Option, none, some, is_some, leb, if◌then◌else◌,
  string_eq, nat_eq, Dict, insert, Floats, Float, ◌<?◌, lit, zero_f, div,
}
use ghost_grid.Config.{Direction, long, short, Regime, get_instrument}
use ghost_grid.Positions.Models.{Snapshot}
use ghost_grid.Positions.Registry.{Books, process_tick}
use ghost_grid.Portfolio.State.{
  Machines, PortfolioState, daily_pnl, open_position_count, total_basket_risk,
}
use ghost_grid.Scoring.Gate.{
  GateDecision, discard, watchlist, alert, full_auto, full_auto_strong, ConfluenceScore,
  ConfluenceGate, evaluate,
}
use ghost_grid.Risk.Sizer.{compute_stop_loss}
use ghost_grid.Risk.Validator.{ProposedOrder, PortfolioSnapshot, Reason, ValidationResult, validate}

module _ ⦃F : Floats⦄ where
  -- What the pipeline reads of a market snapshot, with its tick.
  pub record LiveSnapshot : Type 0 where
    pub seen : Snapshot
    pub bid : Float
    pub ask : Float
    pub spread : Float
    pub atr_5m : Float

  -- The globals. `is_started` is whether the registry, the commander and the ledger are set, as `startup` leaves
  -- them; the portfolio, the gate and the risk governor, which it sets before them, are.
  pub record Bot : Type 0 where
    pub current_prices : Dict String Float
    pub heap : Machines
    pub books : Books
    pub gate : ConfluenceGate
    pub pos_id_counter : ℕ
    pub is_started : Bool

  -- The arguments for ValidatedOrder.
  pub record OrderArguments : Type 0 where
    pub position_id : ℕ
    pub symbol : String
    pub direction : Direction
    pub lot_size : Option Float
    pub entry_price : Float
    pub stop_loss : Float
    pub hc_score : ℕ
    pub regime : Regime
    pub session : String

  -- How the pipeline ends.
  pub data Outcome : Type 0 where
    paused await_raised scoring_failed breaker_set full unknown_symbol : Outcome
    waits : GateDecision → Outcome
    rejects : Option Reason → Outcome
    order_raised : OrderArguments → Outcome

  unfoldable pub is_auto : GateDecision → Bool
  is_auto full_auto = true
  is_auto full_auto_strong = true
  is_auto discard = false
  is_auto watchlist = false
  is_auto alert = false

  abbrev pub entry_of : Direction → LiveSnapshot → Float
  entry_of long snap = snap.ask
  entry_of short snap = snap.bid

  unfoldable pub proposal_of : ConfluenceScore → LiveSnapshot → ProposedOrder
  proposal_of score snap =
      let entry = entry_of score.direction snap in
      record {
        symbol = snap.seen.symbol;
        direction = score.direction;
        entry_price = entry;
        stop_loss = compute_stop_loss entry score.direction snap.atr_5m (lit 15 1);
        atr_5m = snap.atr_5m;
        spread_pct = if zero_f <? snap.seen.mid then div snap.spread snap.seen.mid else lit 1 0;
        hc_score = score.composite;
        regime = score.regime;
        session = score.session;
      }

  unfoldable pub portfolio_of : Machines → PortfolioState → PortfolioSnapshot
  portfolio_of heap p = record {
    net_equity = p.net_equity;
    starting_equity = p.starting_equity;
    daily_pnl = daily_pnl p;
    open_position_count = open_position_count p;
    total_basket_risk = total_basket_risk heap p;
    margin_utilisation = p.margin_utilisation;
    day_locked = p.day_locked;
  }

  unfoldable pub order_of : ℕ → ProposedOrder → ValidationResult → OrderArguments
  order_of position_id o r = record {
    position_id = position_id;
    symbol = o.symbol;
    direction = o.direction;
    lot_size = r.lot_size;
    entry_price = o.entry_price;
    stop_loss = o.stop_loss;
    hc_score = o.hc_score;
    regime = o.regime;
    session = o.session;
  }

  -- `_next_position_id`
  abbrev pub next_position_id : Bot → Bot × ℕ
  next_position_id bot =
      (record bot { pos_id_counter = bot.pos_id_counter + 1 }, bot.pos_id_counter)

  -- The verdict of the risk governor.
  unfoldable pub order : Bot → ProposedOrder → ValidationResult → Bot × Outcome
  order bot o r =
      let (bot', position_id) = next_position_id bot in
      if r.approved
      then (bot', order_raised (order_of position_id o r))
      else (bot, rejects r.reason)

  -- From the decision of the gate on.
  unfoldable pub enter : Bot → LiveSnapshot → ConfluenceScore → GateDecision → Bot × Outcome
  enter bot snap score decision =
      let portfolio = bot.books.1 in
      let proposal = proposal_of score snap in
      if not (is_auto decision)
      then (bot, waits decision)
      else if portfolio.circuit_breaker
      then (bot, breaker_set)
      else if leb 5 (open_position_count portfolio)
      then (bot, full)
      else if not (is_some (get_instrument snap.seen.symbol))
      then (bot, unknown_symbol)
      else order bot proposal (validate proposal (portfolio_of bot.heap portfolio))

  -- From the score on.
  abbrev pub judge : Bot → LiveSnapshot → Option ConfluenceScore → Bot × Outcome
  judge bot snap none = (bot, scoring_failed)
  judge bot snap (some score) =
      let (gate, decision) = evaluate bot.gate score in
      enter (record bot { gate = gate }) snap score decision

  -- The price of the snapshot, kept for the portfolio.
  abbrev pub keep_price : Bot → Snapshot → Bot
  keep_price bot snap = record bot {
    current_prices = insert snap.symbol snap.mid bot.current_prices;
  }

  -- The ticks of the open positions.
  unfoldable pub tick_positions : Bot → Snapshot → Bot
  tick_positions bot snap =
      let (heap, books, exits) = process_tick bot.heap bot.books snap in
      record bot { heap = heap; books = books }

  -- `on_snapshot`: the bot, and how it ends. `process_tick` is not a coroutine: it ticks the positions and
  -- returns a list, and the await of that list raises TypeError, before the list is read.
  unfoldable pub on_snapshot : Option ConfluenceScore → Bot → LiveSnapshot → Bot × Outcome
  on_snapshot score bot snap =
      let priced = keep_price bot snap.seen in
      let judged = judge priced snap score in
      if bot.books.1.circuit_breaker
      then (priced, paused)
      else if bot.is_started
      then (tick_positions priced snap.seen, await_raised)
      else judged
