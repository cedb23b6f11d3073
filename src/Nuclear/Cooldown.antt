-- ===== src/Nuclear/Cooldown.antt =====
-- What the polls of nuclear/controller.py do to the circuit breaker and to the lock of the day, with
-- whatever other tasks write to the portfolio between two polls.
use ghost_grid.Common.{
  ℕ, leb, if◌then◌else◌, ◌+◌, ◌≤◌, ◌<◌, ◌≡◌, ◌∙◌, refl, true, false, none, some, arith, Floats,
}
use ghost_grid.Portfolio.State.{PortfolioState}
use ghost_grid.Nuclear.Triggers.{NuclearReason, evaluate_triggers}
use ghost_grid.Nuclear.Controller.{
  CloseWorld, cooldown_duration_ms, apply_cooldown, execute_nuclear_close, poll_and_check,
}

module _ ⦃F : Floats⦄ where
  -- Other tasks move prices, positions and equity; they leave the fields of the guardian alone.
  pub record SameGuard (s s' : PortfolioState) : Type 0 where
    pub same_ts : s'.last_nuclear_ts ≡ s.last_nuclear_ts
    pub same_count : s'.nuclear_count_today ≡ s.nuclear_count_today
    pub same_breaker : s'.circuit_breaker ≡ s.circuit_breaker
    pub same_lock : s'.day_locked ≡ s.day_locked

  -- Polls at times from `start` up to before `end`, in any order with the writes of other tasks.
  pub data Guarded (start end : ℕ) (s : PortfolioState) : PortfolioState → Type 0 where
    here : Guarded start end s s
    polled :
        {t u : PortfolioState}
        → Guarded start end s t
        → (w : CloseWorld) (now : ℕ) → start ≤ now
        → now < end
        → u ≡ (poll_and_check w t now).0
        → Guarded start end s u
    written : {t u : PortfolioState} → Guarded start end s t → SameGuard t u → Guarded start end s u

  -- The breaker is on, and the last fire is not older than `start`.
  pub record IsCooling (start : ℕ) (s : PortfolioState) : Type 0 where
    pub fired : start ≤ s.last_nuclear_ts
    pub breaker : s.circuit_breaker ≡ true

  poll-IsCooling :
      (start now : ℕ) (w : CloseWorld) (s : PortfolioState)
      → start ≤ now
      → now < start + cooldown_duration_ms
      → IsCooling start s
      → IsCooling start (poll_and_check w s now).0
  unfolding poll_and_check apply_cooldown
  poll-IsCooling start now w s h k c = ground arith

  Guarded-IsCooling :
      (start : ℕ) {s s' : PortfolioState}
      → Guarded start (start + cooldown_duration_ms) s s'
      → IsCooling start s
      → IsCooling start s'
  Guarded-IsCooling start here c = c
  Guarded-IsCooling start (polled {t = t} g w now h k e) c =
      rw e (poll-IsCooling start now w t h k (Guarded-IsCooling start g c))
  Guarded-IsCooling start (written g same) c = let c' = Guarded-IsCooling start g c in ground arith

  fire-IsCooling :
      (w : CloseWorld) (s : PortfolioState) (reason : NuclearReason) (start : ℕ)
      → w.has_close ≡ true
      → evaluate_triggers s ≡ some reason
      → IsCooling start (poll_and_check w s start).0
  unfolding poll_and_check apply_cooldown execute_nuclear_close
  fire-IsCooling w s reason start able fires = ground arith

  -- After a poll that fires with a commander that has the method close, the circuit breaker is on
  -- after every further sequence of polls in the next fifteen minutes and of writes of other tasks
  -- that leave the guardian's fields alone.
  pub fire-Guarded :
      (w : CloseWorld) (s s' : PortfolioState) (reason : NuclearReason) (start : ℕ)
      → w.has_close ≡ true
      → evaluate_triggers s ≡ some reason
      → Guarded start (start + cooldown_duration_ms) (poll_and_check w s start).0 s'
      → s'.circuit_breaker ≡ true
  fire-Guarded w s s' reason start able fires g = (Guarded-IsCooling start g fired).breaker
    where
      fired : IsCooling start (poll_and_check w s start).0
      fired = fire-IsCooling w s reason start able fires

  -- A poll that fires with such a commander adds one to the count of the day, records its time, and locks the day if it
  -- was not the first event.
  pub fire_locks :
      (w : CloseWorld) (s : PortfolioState) (reason : NuclearReason) (now : ℕ)
      → w.has_close ≡ true
      → evaluate_triggers s ≡ some reason
      → let s' = (poll_and_check w s now).0 in
        (s'.nuclear_count_today ≡ s.nuclear_count_today + 1)
        × (s'.last_nuclear_ts ≡ now)
        × (s'.day_locked ≡ (if leb 1 s.nuclear_count_today then true else s.day_locked))
  unfolding poll_and_check apply_cooldown execute_nuclear_close
  fire_locks w s reason now able fires = ground arith

  poll-lock :
      (w : CloseWorld) (s : PortfolioState) (now : ℕ)
      → s.day_locked ≡ true
      → (poll_and_check w s now).0.day_locked ≡ true
  unfolding poll_and_check apply_cooldown
  poll-lock w s now l = ground arith

  -- A locked day stays locked through any sequence of polls and of writes that leave the guardian's
  -- fields alone.
  pub Guarded-lock :
      {start end : ℕ} {s s' : PortfolioState}
      → Guarded start end s s'
      → s.day_locked ≡ true
      → s'.day_locked ≡ true
  Guarded-lock here l = l
  Guarded-lock (polled {t = t} g w now h k e) l = rw e (poll-lock w t now (Guarded-lock g l))
  Guarded-lock (written g same) l = same.same_lock ∙ Guarded-lock g l

  -- A poll without a trigger, fifteen minutes or more after the last fire, switches a circuit
  -- breaker off that was on.
  pub quiet_poll_resumes :
      (w : CloseWorld) (s : PortfolioState) (now : ℕ)
      → evaluate_triggers s ≡ none
      → s.last_nuclear_ts + cooldown_duration_ms ≤ now
      → s.circuit_breaker ≡ true
      → (poll_and_check w s now).0.circuit_breaker ≡ false
  unfolding poll_and_check apply_cooldown
  quiet_poll_resumes w s now quiet over on = ground arith

  -- Polls with commanders without the method `close`, in any order with the writes of other tasks.
  pub data Unguarded (s : PortfolioState) : PortfolioState → Type 0 where
    untouched : Unguarded s s
    polled_bare :
        {t u : PortfolioState}
        → Unguarded s t
        → (w : CloseWorld) (now : ℕ) → w.has_close ≡ false
        → s.last_nuclear_ts + cooldown_duration_ms ≤ now
        → u ≡ (poll_and_check w t now).0
        → Unguarded s u
    written_bare : {t u : PortfolioState} → Unguarded s t → SameGuard t u → Unguarded s u

  -- Nothing was recorded since, and the breaker is off.
  pub record IsOff (s t : PortfolioState) : Type 0 where
    pub same_ts : t.last_nuclear_ts ≡ s.last_nuclear_ts
    pub same_count : t.nuclear_count_today ≡ s.nuclear_count_today
    pub breaker : t.circuit_breaker ≡ false

  poll-IsOff :
      (s t : PortfolioState) (w : CloseWorld) (now : ℕ)
      → w.has_close ≡ false
      → s.last_nuclear_ts + cooldown_duration_ms ≤ now
      → IsOff s t
      → IsOff s (poll_and_check w t now).0
  unfolding poll_and_check apply_cooldown execute_nuclear_close evaluate_triggers
  poll-IsOff s t w now unable late h = ground arith

  -- With commanders that have no method close, and from fifteen minutes after the last recorded
  -- event on, whatever fires, no sequence of polls and of writes that leave the guardian's fields
  -- alone records an event or switches the circuit breaker on.
  pub Unguarded-IsOff :
      {s t : PortfolioState} → s.circuit_breaker ≡ false → Unguarded s t → IsOff s t
  Unguarded-IsOff off untouched = record { same_ts = refl; same_count = refl; breaker = off }
  Unguarded-IsOff {s = s} off (polled_bare {t = t} g w now unable late e) =
      rw e (poll-IsOff s t w now unable late (Unguarded-IsOff off g))
  Unguarded-IsOff off (written_bare g same) = let h = Unguarded-IsOff off g in ground arith
