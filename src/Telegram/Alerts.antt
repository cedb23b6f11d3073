-- ===== src/Telegram/Alerts.antt =====
-- telegram/alerts.py: the limiter of outbound messages. The monotonic clock is a number.
use ghost_grid.Common.{ℕ, ◌-◌, Bool, ◌||◌, List, [], ◌∷◌, ◌++◌, length, ltb, if◌then◌else◌}

pub record TelegramRateLimiter : Type 0 where
  pub max_messages : ℕ
  pub window_seconds : ℕ
  pub timestamps : List ℕ

unfoldable pub new_limiter : TelegramRateLimiter
new_limiter = record { max_messages = 4; window_seconds = 60; timestamps = [] }

-- The loop that pops the timestamps older than the window, the oldest first.
unfoldable pub pop_old : ℕ → ℕ → List ℕ → List ℕ
pop_old now window [] = []
pop_old now window (t ∷ ts) =
    let rest = pop_old now window ts in if ltb window (now - t) then rest else t ∷ ts

-- `allow`, for a message of high priority or not.
unfoldable pub allow : TelegramRateLimiter → Bool → ℕ → TelegramRateLimiter × Bool
allow r high now =
    let recent = pop_old now r.window_seconds r.timestamps in
    let room = ltb (length recent) r.max_messages in
    (
      record r {
        timestamps = if high then r.timestamps else if room then recent ++ now ∷ [] else recent;
      },
      high || room,
    )
