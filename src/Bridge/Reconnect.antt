-- ===== src/Bridge/Reconnect.antt =====
-- bridge/reconnect.py: one round of the loop of `run`, and runs of rounds. The clock is left out, and with
-- it the times of the metrics. Whether the pipe is connected, and whether a connect succeeds, comes from
-- the pipe client.
use Prim.Native.Nat.{min}
use ghost_grid.Common.{
  ℕ, suc, ◌+◌, ◌-◌, ◌*◌, ◌^◌, Bool, true, false, List, [], ◌∷◌, ltb, if◌then◌else◌,
}

-- What a round does outside: a sleep in seconds, or a call of `connect`.
pub data Action : Type 0 where
  sleep : ℕ → Action
  connect : Action

-- The manager, with the two local variables of its loop.
pub record ReconnectManager : Type 0 where
  pub attempt : ℕ
  pub last_was_connected : Bool
  pub pause_flag : Bool
  pub crash_recovery_signal : Bool
  pub total_reconnect_attempts : ℕ
  pub successful_reconnects : ℕ
  pub failed_reconnects : ℕ
  pub circuit_breaker_opened : ℕ
  pub circuit_breaker_resets : ℕ

unfoldable pub start : Bool → ReconnectManager
start is_connected = record {
  attempt = 0;
  last_was_connected = is_connected;
  pause_flag = false;
  crash_recovery_signal = false;
  total_reconnect_attempts = 0;
  successful_reconnects = 0;
  failed_reconnects = 0;
  circuit_breaker_opened = 0;
  circuit_breaker_resets = 0;
}

abbrev pub max_attempts : ℕ
max_attempts = 5

abbrev pub backoff : ℕ → ℕ
backoff attempt = min (1 * 2 ^ (attempt - 1)) 30

-- What a round observes of the pipe.
pub record Pipe : Type 0 where
  pub is_connected : Bool
  pub connect_succeeds : Bool

-- The branch of a lost connection, with the attempt counted.
unfoldable pub try_reconnect : ReconnectManager → Bool → ReconnectManager × List Action
try_reconnect m connect_succeeds =
    if ltb max_attempts m.attempt
    then (
      record m { pause_flag = true; circuit_breaker_opened = m.circuit_breaker_opened + 1 },
      sleep 30 ∷ [],
    )
    else (
      (if connect_succeeds
          then record m {
            attempt = 0;
            pause_flag = false;
            crash_recovery_signal = true;
            successful_reconnects = m.successful_reconnects + 1;
            circuit_breaker_resets = m.circuit_breaker_resets + 1;
          }
          else record m { failed_reconnects = m.failed_reconnects + 1 }),
      sleep (backoff m.attempt) ∷ connect ∷ [],
    )

-- One round of the loop.
unfoldable pub round : ReconnectManager → Pipe → ReconnectManager × List Action
round m p =
    if p.is_connected
    then (record m { attempt = 0; last_was_connected = true }, sleep 1 ∷ [])
    else (let counted = if m.last_was_connected then 1 else m.attempt + 1 in
        try_reconnect
          (record m {
            attempt = counted;
            last_was_connected = false;
            total_reconnect_attempts = m.total_reconnect_attempts + 1;
          })
          p.connect_succeeds)

unfoldable pub rounds : ReconnectManager → List Pipe → ReconnectManager
rounds m [] = m
rounds m (p ∷ ps) = rounds (round m p).0 ps

abbrev pub connects_in : List Action → ℕ
connects_in [] = 0
connects_in (connect ∷ actions) = suc (connects_in actions)
connects_in (sleep _ ∷ actions) = connects_in actions

-- How often a run of rounds calls `connect`.
unfoldable pub connects : ReconnectManager → List Pipe → ℕ
connects m [] = 0
connects m (p ∷ ps) = connects_in (round m p).1 + connects (round m p).0 ps
