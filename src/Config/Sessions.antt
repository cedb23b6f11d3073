-- ===== src/Config/Sessions.antt =====
-- config/sessions.py: the session windows. A time of day is its number of microseconds since midnight.
use ghost_grid.Common.{
  ℕ, ◌*◌, ◌≤◌, ◌≡◌, ◌↔◌, Bool, true, ◌&&◌, ◌||◌, Option, none, some, List, [], ◌∷◌, ltb, leb,
  if◌then◌else◌, arith,
}
use ghost_grid.Config.{Session, asia, london, ny, overlap}

abbrev pub hour : ℕ
hour = 3600000000

pub record Window : Type 0 where
  pub name : Session
  pub utc_start : ℕ
  pub utc_end : ℕ
  pub priority : ℕ

unfoldable pub contains : Window → ℕ → Bool
contains w utc_time =
    if leb w.utc_start w.utc_end
    then leb w.utc_start utc_time && ltb utc_time w.utc_end
    else leb w.utc_start utc_time || ltb utc_time w.utc_end

abbrev pub window : Session → Window
window asia = record { name = asia; utc_start = 0 * hour; utc_end = 8 * hour; priority = 1 }
window london = record { name = london; utc_start = 8 * hour; utc_end = 12 * hour; priority = 3 }
window overlap = record { name = overlap; utc_start = 12 * hour; utc_end = 17 * hour; priority = 4 }
window ny = record { name = ny; utc_start = 17 * hour; utc_end = 22 * hour; priority = 2 }

-- `SESSIONS`
abbrev pub sessions : List Window
sessions = window asia ∷ window london ∷ window overlap ∷ window ny ∷ []

-- The loop over the sessions; none is INACTIVE.
unfoldable pub first_session : ℕ → List Window → Option Session
first_session t [] = none
first_session t (w ∷ ws) =
    let later = first_session t ws in if contains w t then some w.name else later

unfoldable pub get_current_session : ℕ → Option Session
get_current_session t = first_session t sessions

-- A session is the current one exactly when its window contains the time, and there is none exactly
-- from 22 hours after midnight on.
pub get_current_session_iff :
    (t : ℕ)
    → ((s : Session) → (get_current_session t ≡ some s) ↔ (contains (window s) t ≡ true))
      × ((get_current_session t ≡ none) ↔ (22 * hour ≤ t))
unfolding get_current_session first_session contains
get_current_session_iff t = (by_name, (λ h. ground arith, λ h. ground arith))
  where
    by_name : (s : Session) → (get_current_session t ≡ some s) ↔ (contains (window s) t ≡ true)
    by_name asia = (λ h. ground arith, λ h. ground arith)
    by_name london = (λ h. ground arith, λ h. ground arith)
    by_name overlap = (λ h. ground arith, λ h. ground arith)
    by_name ny = (λ h. ground arith, λ h. ground arith)
