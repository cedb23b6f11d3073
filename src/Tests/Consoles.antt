-- ===== src/Tests/Consoles.antt =====
-- Histories of telegram commands at concrete inputs.
use ghost_grid.Common.{ℕ, ◌≡◌, refl, true, false, [], ◌∷◌, arith, lit, lookup, insert, ◌<?◌}
use ghost_grid.Common.Fixed.{fixed}
use ghost_grid.Portfolio.State.{initial}
use ghost_grid.Security.RateLimiter.{new_limiter, check_limit, try_consume, refill}
use ghost_grid.Telegram.Commands.{
  nuke_action, force_raised, nothing_pending, Pending, Console, Sender, key_of, cmd_confirm,
  consume_confirmation, cmd_destructive, register_confirmation, destructive, handle,
}
use ghost_grid.Telegram.Confirmed.{after_commands, Backed, cmd_confirm-Backed}
use ghost_grid.Telegram.Spacing.{IsSpaced, allow_all, allow_all-IsSpaced}

abbrev fresh : Console
fresh = record {
  confirmation_state = [];
  limiter = new_limiter (lit 0 0);
  portfolio_state = initial;
  tracked_pairs = [];
  has_controller = true;
}

abbrev at : ℕ → Sender
at time = record {
  chat_id = 1;
  user_id = 9;
  checked = lit time 0;
  created = lit time 0;
  now = lit time 0;
}

nuke-asked :
    (cmd_confirm (after_commands fresh (destructive nuke_action (at 100) ∷ [])) (at 105)).1
    ≡ force_raised nuke_action
unfolding cmd_confirm consume_confirmation after_commands handle cmd_destructive
    register_confirmation check_limit try_consume refill new_limiter lookup insert
nuke-asked = refl

cmd_confirm-Backed_example :
    let asked =
      cmd_confirm (after_commands fresh (destructive nuke_action (at 100) ∷ [])) (at 105) in
    ((p : Pending) × Backed (1, 9) p (destructive nuke_action (at 100) ∷ [])
      × (p.action ≡ nuke_action)
      × ((p.expires_at <? lit 105 0) ≡ false))
    × ((s' : Sender) → key_of s' ≡ (1, 9) → (cmd_confirm asked.0 s').1 ≡ nothing_pending)
cmd_confirm-Backed_example =
    cmd_confirm-Backed fresh (destructive nuke_action (at 100) ∷ []) (at 105) nuke_action nuke-asked

abbrev locked : Console
locked = record fresh {
  portfolio_state = record initial { circuit_breaker = true; day_locked = true };
}

allow_all-IsSpaced_example :
    IsSpaced 2 60
      (allow_all
        (record { max_messages = 2; window_seconds = 60; timestamps = [] })
        []
        ((false, 1) ∷ (false, 2) ∷ (true, 3) ∷ (false, 4) ∷ (false, 70) ∷ [])).1
allow_all-IsSpaced_example =
    allow_all-IsSpaced 2 60 ((false, 1) ∷ (false, 2) ∷ (true, 3) ∷ (false, 4) ∷ (false, 70) ∷ [])
      (omega arith)
