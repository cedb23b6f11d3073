-- ===== src/Main/Guarded.antt =====
-- What holds where `on_snapshot` of main.py comes to the construction of an order.
use ghost_grid.Common.{
  ◌<◌, ◌≡◌, ◌≢◌, ◌∙◌, refl, sym, subst, ap, true, false, not, if-cases, none, some, leb,
  if◌then◌else◌, arith, is_some, Floats,
}
use ghost_grid.Config.{get_instrument}
use ghost_grid.Portfolio.State.{open_position_count}
use ghost_grid.Scoring.Gate.{ConfluenceScore, ConfluenceGate, evaluate}
use ghost_grid.Risk.Sizer.{calculate_lot_size}
use ghost_grid.Risk.Validator.{
  ProposedOrder, PortfolioSnapshot, validate, Passes, validate-approved,
}
use ghost_grid.Main.Pipeline.{
  Bot, LiveSnapshot, Outcome, order_raised, OrderArguments, is_auto, proposal_of, portfolio_of,
  order_of, order, enter, keep_price, on_snapshot,
}

module _ ⦃F : Floats⦄ where
  -- Why an order is made: the bot, the score and the arguments of the order.
  pub record IsJustified (bot : Bot) (snap : LiveSnapshot) (score : ConfluenceScore)
      (args : OrderArguments) : Type 0 where
    pub auto : is_auto (evaluate bot.gate score).1 ≡ true
    pub unpaused : bot.books.1.circuit_breaker ≡ false
    pub room : open_position_count bot.books.1 < 5
    pub known : is_some (get_instrument snap.seen.symbol) ≡ true
    pub passes : Passes (proposal_of score snap) (portfolio_of bot.heap bot.books.1)
    pub sized :
        args.lot_size
        ≡ calculate_lot_size snap.seen.symbol bot.books.1.net_equity args.entry_price args.stop_loss
    pub has_lots : args.lot_size ≢ none
    pub numbered : args.position_id ≡ bot.pos_id_counter
    pub symbol : args.symbol ≡ snap.seen.symbol

  -- What an outcome means for a bot.
  abbrev Means : Bot → LiveSnapshot → ConfluenceScore → Outcome → Type 0
  Means bot snap score (order_raised args) = IsJustified bot snap score args
  Means bot snap score _ = Unit

  approved-sized :
      (o : ProposedOrder) (p : PortfolioSnapshot)
      → (validate o p).approved ≡ true
      → Passes o p
        × ((validate o p).lot_size
            ≡ calculate_lot_size o.symbol p.net_equity o.entry_price o.stop_loss)
        × ((validate o p).lot_size ≢ none)
  approved-sized o p ok = (
    ((validate-approved o p).0.0 ok).0,
    sized,
    subst (λ l. l ≢ none) (sym sized) ((validate-approved o p).0.0 ok).1,
  )
    where
      sized :
          (validate o p).lot_size
          ≡ calculate_lot_size o.symbol p.net_equity o.entry_price o.stop_loss
      sized =
          (validate-approved o p).1
          ∙ ap
              (λ b.
                if b
                then calculate_lot_size o.symbol p.net_equity o.entry_price o.stop_loss
                else none)
              ok

  order_of-IsJustified :
      (bot : Bot) (snap : LiveSnapshot) (score : ConfluenceScore)
      → is_auto (evaluate bot.gate score).1 ≡ true
      → bot.books.1.circuit_breaker ≡ false
      → open_position_count bot.books.1 < 5
      → is_some (get_instrument snap.seen.symbol) ≡ true
      → let o = proposal_of score snap in
        let r = validate o (portfolio_of bot.heap bot.books.1) in
        r.approved ≡ true → IsJustified bot snap score (order_of bot.pos_id_counter o r)
  unfolding order_of proposal_of portfolio_of
  order_of-IsJustified bot snap score auto unpaused room known ok =
      let o : ProposedOrder = proposal_of score snap in
      let p : PortfolioSnapshot = portfolio_of bot.heap bot.books.1 in
      record {
        auto = auto;
        unpaused = unpaused;
        room = room;
        known = known;
        passes = (approved-sized o p ok).0;
        sized = (approved-sized o p ok).1;
        has_lots = (approved-sized o p ok).2;
        numbered = refl;
        symbol = refl;
      }

  -- From the decision of the gate on, an order has all that justifies it.
  enter-Means :
      (bot : Bot) (gate : ConfluenceGate) (snap : LiveSnapshot) (score : ConfluenceScore)
      → Means bot snap score
          (enter (record bot { gate = gate }) snap score (evaluate bot.gate score).1).1
  unfolding enter order
  enter-Means bot gate snap score =
      if-cases P (not (is_auto (evaluate bot.gate score).1)) (λ _. tt)
        λ auto.
          if-cases P bot.books.1.circuit_breaker (λ _. tt)
            λ unpaused.
              if-cases P (leb 5 (open_position_count bot.books.1)) (λ _. tt)
                λ room.
                  if-cases P (not (is_some (get_instrument snap.seen.symbol))) (λ _. tt)
                    λ known.
                      if-cases P
                        (validate (proposal_of score snap)
                          (portfolio_of bot.heap bot.books.1)).approved
                        (order_of-IsJustified bot snap score (ground (arith, auto)) unpaused
                          (ground (arith, room)) (ground (arith, known)))
                        (λ _. tt)
    where
      P : Bot × Outcome → Type 0
      P x = Means bot snap score x.1

  -- Where a score comes to an order, the registry, the commander or the ledger is not set, the bot was not paused,
  -- the gate decided FULL_AUTO or FULL_AUTO_STRONG, fewer than five positions are open, the symbol is known,
  -- the eight conditions of the risk governor hold of the proposal, and the order has the lots of the sizing and
  -- the next id.
  pub on_snapshot-IsJustified :
      (bot : Bot) (snap : LiveSnapshot) (score : ConfluenceScore) (args : OrderArguments)
      → (on_snapshot (some score) bot snap).1 ≡ order_raised args
      → (bot.is_started ≡ false) × IsJustified (keep_price bot snap.seen) snap score args
  unfolding on_snapshot
  on_snapshot-IsJustified bot snap score args e =
      if-cases P bot.books.1.circuit_breaker (λ _ e'. cc)
        (λ _.
          if-cases P bot.is_started (λ _ e'. cc)
            (λ unset e'.
              (unset, subst (Means priced snap score) e' (enter-Means priced _ snap score))))
        e
    where
      priced : Bot
      priced = keep_price bot snap.seen

      P : Bot × Outcome → Type 0
      P x = x.1 ≡ order_raised args → (bot.is_started ≡ false) × IsJustified priced snap score args
