-- ===== src/Scoring/Gate.antt =====
-- scoring/gate.py, and the score and the decisions of scoring/models.py. Scores and counters are ints
-- that are never negative; a threshold is at least 130, so `threshold - 20` is exact.
use ghost_grid.Common.{
  ℕ, ◌+◌, ◌-◌, sym, String, Bool, ◌&&◌, [], leb, if◌then◌else◌, string_eq, nat_eq, nat_beq, Dict,
  lookup, insert, erase, get_or,
}
use ghost_grid.Config.{Direction, Regime, trend, chop, breakout, reversal, other_regime}

pub data GateDecision : Type 0 where
  discard watchlist alert full_auto full_auto_strong : GateDecision

pub record ConfluenceScore : Type 0 where
  pub symbol : String
  pub hmp : ℕ
  pub hlcp : ℕ
  pub mpp : ℕ
  pub composite : ℕ
  pub direction : Direction
  pub regime : Regime
  pub session : String
  pub timestamp_ms : ℕ

-- `REGIME_THRESHOLDS.get(regime, 140)`
unfoldable pub threshold_of : Regime → ℕ
threshold_of trend = 130
threshold_of chop = 155
threshold_of breakout = 140
threshold_of reversal = 145
threshold_of (other_regime _) = 140

unfoldable pub above_threshold : ConfluenceScore → Bool
above_threshold s = leb (threshold_of s.regime) s.composite

pub record ConfluenceGate : Type 0 where
  pub consecutive : Dict String ℕ
  pub alert_cooldown : Dict String ℕ
  pub watchlist_decay : Dict String ℕ

unfoldable pub empty_gate : ConfluenceGate
empty_gate = record { consecutive = []; alert_cooldown = []; watchlist_decay = [] }

-- `d.get(sym, 0)`
unfoldable pub count_of : String → Dict String ℕ → ℕ
count_of sym d = get_or (lookup sym d) 0

-- The consecutive counter and the watchlist entry, before the decision.
unfoldable pub count_cycle : ConfluenceGate → ConfluenceScore → ConfluenceGate
count_cycle g s =
    if above_threshold s
    then record g {
      consecutive = insert s.symbol (count_of s.symbol g.consecutive + 1) g.consecutive;
      watchlist_decay = erase s.symbol g.watchlist_decay;
    }
    else record g { consecutive = insert s.symbol 0 g.consecutive }

reset_alert_cooldown : ConfluenceGate → String → ConfluenceGate
reset_alert_cooldown g sym = record g { alert_cooldown = erase sym g.alert_cooldown }

-- ALERT, or its suppression.
alert_cycle : ConfluenceGate → String → ConfluenceGate × GateDecision
alert_cycle g sym =
    let cooldown = count_of sym g.alert_cooldown in
    if nat_beq cooldown 0
    then (record g { alert_cooldown = insert sym 10 g.alert_cooldown }, alert)
    else (record g { alert_cooldown = insert sym (cooldown - 1) g.alert_cooldown }, discard)

-- WATCHLIST, or its expiry.
watch_cycle : ConfluenceGate → String → ConfluenceGate × GateDecision
watch_cycle g sym =
    let decay = count_of sym g.watchlist_decay + 1 in
    if leb decay 15
    then (record g { watchlist_decay = insert sym decay g.watchlist_decay }, watchlist)
    else (record g { watchlist_decay = erase sym (insert sym decay g.watchlist_decay) }, discard)

-- The decision tree, at the counter of this cycle.
unfoldable pub decide : ConfluenceGate → ConfluenceScore → ℕ → ConfluenceGate × GateDecision
unfolding reset_alert_cooldown alert_cycle watch_cycle
decide g s n =
    let threshold = threshold_of s.regime in
    if leb 2 n && leb (threshold + 20) s.composite
    then (reset_alert_cooldown g s.symbol, full_auto_strong)
    else if leb 2 n && leb threshold s.composite
    then (reset_alert_cooldown g s.symbol, full_auto)
    else if nat_beq n 1 && leb threshold s.composite
    then alert_cycle g s.symbol
    else if leb (threshold - 20) s.composite
    then watch_cycle g s.symbol
    else (g, discard)

unfoldable pub evaluate : ConfluenceGate → ConfluenceScore → ConfluenceGate × GateDecision
evaluate g s = let g' = count_cycle g s in decide g' s (count_of s.symbol g'.consecutive)

unfoldable pub reset : ConfluenceGate → String → ConfluenceGate
reset g symbol = record g {
  consecutive = erase symbol g.consecutive;
  alert_cooldown = erase symbol g.alert_cooldown;
  watchlist_decay = erase symbol g.watchlist_decay;
}
