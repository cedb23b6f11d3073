-- ===== src/Bridge/Outage.antt =====
-- bridge/reconnect.py: what its counters count, and what it does in an outage of the pipe.
use Prim.Native.Nat.{min}
use ghost_grid.Common.{
  ℕ, suc, ◌+◌, ◌≤◌, ◌≡◌, true, false, ◌&&◌, ◌||◌, List, [], ◌∷◌, ltb, leb, All, arith,
  if◌then◌else◌,
}
use ghost_grid.Bridge.Reconnect.{
  ReconnectManager, Pipe, try_reconnect, round, rounds, connects, connects_in,
}

-- Every attempt is counted once more: as a success, a failure or an opened breaker.
pub record IsCounted (m : ReconnectManager) : Type 0 where
  pub attempts :
      m.total_reconnect_attempts
      ≡ m.successful_reconnects + m.failed_reconnects + m.circuit_breaker_opened
  pub resets : m.circuit_breaker_resets ≡ m.successful_reconnects

round-IsCounted : (m : ReconnectManager) (p : Pipe) → IsCounted m → IsCounted (round m p).0
unfolding round try_reconnect
round-IsCounted m p v = ground arith

-- Rounds keep it true that each attempt is counted as a success, a failure or an opened breaker, and
-- that the breaker was reset once for each success.
pub rounds-IsCounted :
    (ps : List Pipe) (m : ReconnectManager) → IsCounted m → IsCounted (rounds m ps)
unfolding rounds
rounds-IsCounted [] m v = v
rounds-IsCounted (p ∷ ps) m v = rounds-IsCounted ps (round m p).0 (round-IsCounted m p v)

-- A run of rounds that all see the pipe disconnected.
abbrev pub IsOutage : List Pipe → Type 0
IsOutage = All (λ p. p.is_connected ≡ false)

-- A run of rounds in which moreover every connect fails.
abbrev pub IsFailing : List Pipe → Type 0
IsFailing = All (λ p. (p.is_connected ≡ false) × (p.connect_succeeds ≡ false))

abbrev pub count : List Pipe → ℕ
count [] = 0
count (_ ∷ ps) = suc (count ps)

fail_once :
    (m : ReconnectManager) (p : Pipe)
    → p.is_connected ≡ false
    → p.connect_succeeds ≡ false
    → m.last_was_connected ≡ false
    → let (m', actions) = round m p in
      (m'.attempt ≡ m.attempt + 1)
      × (m'.last_was_connected ≡ false)
      × (connects_in actions ≡ (if ltb m.attempt 5 then 1 else 0))
      × (m'.pause_flag ≡ (leb 5 m.attempt || m.pause_flag))
unfolding round try_reconnect
fail_once m p off fails down = ground arith

give_up_once :
    (m : ReconnectManager) (p : Pipe)
    → p.is_connected ≡ false
    → m.last_was_connected ≡ false
    → 5 ≤ m.attempt
    → let (m', actions) = round m p in
      (5 ≤ m'.attempt)
      × (m'.last_was_connected ≡ false)
      × (connects_in actions ≡ 0)
      × (m'.pause_flag ≡ true)
unfolding round try_reconnect
give_up_once m p off down spent = ground arith

-- A run of failing rounds within an outage.
failing_run :
    (ps : List Pipe) (m : ReconnectManager)
    → m.last_was_connected ≡ false
    → IsFailing ps
    → (connects m ps + min m.attempt 5 ≡ min (m.attempt + count ps) 5)
      × ((rounds m ps).pause_flag
          ≡ ((ltb 5 (m.attempt + count ps) && ltb 0 (count ps)) || m.pause_flag))
      × ((rounds m ps).attempt ≡ m.attempt + count ps)
      × ((rounds m ps).last_was_connected ≡ false)
unfolding connects rounds
failing_run [] m down h = ground arith
failing_run (p ∷ ps) m down ((off, fails), h) =
    let once = fail_once m p off fails down in
    let rest = failing_run ps (round m p).0 once.1 h in ground (arith, once, rest)

-- The first failing round after a connected one.
lose_connection :
    (m : ReconnectManager) (p : Pipe)
    → m.last_was_connected ≡ true
    → p.is_connected ≡ false
    → p.connect_succeeds ≡ false
    → let (m', actions) = round m p in
      (m'.attempt ≡ 1)
      × (m'.last_was_connected ≡ false)
      × (connects_in actions ≡ 1)
      × (m'.pause_flag ≡ m.pause_flag)
unfolding round try_reconnect
lose_connection m p up off fails = ground arith

-- In a run of failing rounds that starts with a lost connection, connect is called in the first five
-- and in no later one, and the pause flag is set exactly if it was or there are more than five.
pub outage-connects :
    (m : ReconnectManager) (p : Pipe) (ps : List Pipe)
    → m.last_was_connected ≡ true
    → IsFailing (p ∷ ps)
    → (connects m (p ∷ ps) ≡ min (count (p ∷ ps)) 5)
      × ((rounds m (p ∷ ps)).pause_flag ≡ (ltb 5 (count (p ∷ ps)) || m.pause_flag))
unfolding connects rounds
outage-connects m p ps up ((off, fails), h) =
    let first = lose_connection m p up off fails in
    let rest = failing_run ps (round m p).0 first.1 h in ground (arith, first, rest)

gives_up :
    (qs : List Pipe) (m : ReconnectManager)
    → m.last_was_connected ≡ false
    → 5 ≤ m.attempt
    → IsOutage qs
    → (connects m qs ≡ 0) × ((5 ≤ (rounds m qs).attempt))
unfolding connects rounds
gives_up [] m down spent h = ground arith
gives_up (q ∷ qs) m down spent (off, h) =
    let once = give_up_once m q off down spent in
    let rest = gives_up qs (round m q).0 once.1 once.0 h in ground (arith, once, rest)

-- Once the pipe was lost and five or more rounds in a row have failed to connect, no later round of
-- the outage calls connect, also if it would succeed.
pub outage-gives_up :
    (m : ReconnectManager) (p : Pipe) (ps qs : List Pipe)
    → m.last_was_connected ≡ true
    → IsFailing (p ∷ ps)
    → 5 ≤ count (p ∷ ps)
    → IsOutage qs
    → connects (rounds m (p ∷ ps)) qs ≡ 0
unfolding rounds
outage-gives_up m p ps qs up ((off, fails), h) long out =
    let first = lose_connection m p up off fails in
    let rest = failing_run ps (round m p).0 first.1 h in
    (gives_up qs (rounds (round m p).0 ps) rest.3 (omega (arith, rest.2, first.0)) out).0
