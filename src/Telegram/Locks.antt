-- ===== src/Telegram/Locks.antt =====
-- What no history of the commands of telegram/commands.py unlocks.
use ghost_grid.Common.{◌≡◌, refl, true, not, ◌&&◌, if-cases, List, [], ◌∷◌, arith, Floats}
use ghost_grid.Portfolio.State.{PortfolioState}
use ghost_grid.Security.RateLimiter.{nuke, pause, resume}
use ghost_grid.Telegram.Commands.{
  Console, register_confirmation, consume_confirmation, cmd_destructive, cmd_confirm, cmd_cancel,
  cmd_show, cmd_pause, cmd_resume, cmd_setmode, cmd_addpair, cmd_removepair, Command, destructive,
  confirm, cancel, pauses, resumes, shows, setmode, addpair, removepair, handle, check_rate_limit,
}
use ghost_grid.Telegram.Confirmed.{after_commands}

module _ ⦃F : Floats⦄ where
  -- The day is locked, and no new order is made.
  abbrev pub IsLocked : PortfolioState → Type 0
  IsLocked p = (p.day_locked ≡ true) × (p.circuit_breaker ≡ true)

  handle-IsLocked :
      (c : Console) (command : Command)
      → IsLocked c.portfolio_state
      → IsLocked (handle c command).0.portfolio_state
  unfolding handle cmd_destructive register_confirmation cmd_confirm consume_confirmation cmd_cancel
      cmd_show cmd_pause cmd_resume cmd_setmode cmd_addpair cmd_removepair
  handle-IsLocked c (destructive action s) v =
      if-cases (λ (c' : Console). IsLocked c'.portfolio_state) (check_rate_limit c s nuke).1
        (λ _. v) (λ _. v)
  handle-IsLocked c (confirm s) v = v
  handle-IsLocked c (cancel s) v = v
  handle-IsLocked c (pauses s) v =
      if-cases (λ (c' : Console). IsLocked c'.portfolio_state) (check_rate_limit c s pause).1
        (λ _. (v.0, refl)) (λ _. v)
  handle-IsLocked c (resumes s) v =
      if-cases (λ (c' : Console). IsLocked c'.portfolio_state)
        ((check_rate_limit c s resume).1 && not c.portfolio_state.day_locked)
        (λ allowed. absurd (ground (arith, v.0, allowed))) (λ _. v)
  handle-IsLocked c (shows action s) v = v
  handle-IsLocked c (setmode word) v = v
  handle-IsLocked c (addpair pair) v = v
  handle-IsLocked c (removepair pair) v = v

  -- Where the day is locked and trading is paused, they are so after any commands by anyone.
  pub after_commands-IsLocked :
      (start : Console) (commands : List Command)
      → IsLocked start.portfolio_state
      → IsLocked (after_commands start commands).portfolio_state
  unfolding after_commands
  after_commands-IsLocked start [] v = v
  after_commands-IsLocked start (c ∷ earlier) v =
      handle-IsLocked (after_commands start earlier) c (after_commands-IsLocked start earlier v)
