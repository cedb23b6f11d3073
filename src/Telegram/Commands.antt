-- ===== src/Telegram/Commands.antt =====
-- telegram/commands.py: the commands that change state. The texts of the replies, the keyboards, the audit log
-- and the commands that only show something are left out. Ids are natural; the readings of the clock, in seconds,
-- come in, as does whether the bot has a nuclear controller.
use ghost_grid.Common.{
  ℕ, String, ◌≡◌, ◌↔◌, ap, Bool, true, false, not, ◌&&◌, Option, none, some, List, ◌∷◌, nat_beq,
  if◌then◌else◌, arith, ◌==◌, string_eq, Key, Dict, lookup, insert, erase, contains, select, Floats,
  Float, ◌<?◌, lit, add,
}
use ghost_grid.Config.{Mode, scalp_burst, daily_target, aggressive_compounding}
use ghost_grid.Portfolio.State.{PortfolioState}
use ghost_grid.Security.RateLimiter.{RateLimitAction, nuke, pause, resume, RateLimiter, check_limit}

-- What needs a confirmation.
pub data Destructive : Type 0 where
  nuke_action kill_action closeall_action : Destructive

-- A chat and a user.
abbrev pub ConfirmationKey : Type 0
ConfirmationKey = ℕ × ℕ

abbrev pub same_confirmation_key : ConfirmationKey → ConfirmationKey → Bool
same_confirmation_key (c, u) (d, v) = nat_beq c d && nat_beq u v

pub same_confirmation_key_iff :
    (j k : ConfirmationKey) → (same_confirmation_key j k ≡ true) ↔ (j ≡ k)
same_confirmation_key_iff (c, u) (d, v) =
    (λ h. grind arith, λ h. rw (ap (λ k. k.0) h, ap (λ k. k.1) h) (ground arith))

instance abbrev pub confirmation_key : Key ConfirmationKey
confirmation_key = record {
  same_key = same_confirmation_key;
  same_key_iff = same_confirmation_key_iff;
}

-- What a handler replies; the last two are a call of `force_nuclear`, which NuclearController does not define,
-- and a bot without a controller.
pub data Reply : Type 0 where
  rate_limited registered nothing_pending cancelled nothing_to_cancel shown : Reply
  paused day_locked resumed mode_set pair_added pair_removed : Reply
  force_raised : Destructive → Reply
  controller_unavailable : Reply

module _ ⦃F : Floats⦄ where
  pub record Pending : Type 0 where
    pub action : Destructive
    pub expires_at : Float

  -- The state that the handlers share.
  pub record Console : Type 0 where
    pub confirmation_state : Dict ConfirmationKey Pending
    pub limiter : RateLimiter
    pub portfolio_state : PortfolioState
    pub tracked_pairs : List String
    pub has_controller : Bool

  -- Who sends a command, and what the clock shows: twice to the rate limiter, and once to the handler.
  pub record Sender : Type 0 where
    pub chat_id : ℕ
    pub user_id : ℕ
    pub checked : Float
    pub created : Float
    pub now : Float

  -- `_get_confirmation_key`
  abbrev pub key_of : Sender → ConfirmationKey
  key_of s = (s.chat_id, s.user_id)

  -- `check_rate_limit`
  abbrev pub check_rate_limit : Console → Sender → RateLimitAction → Console × Bool
  check_rate_limit c s action =
      let (limiter, allowed) = check_limit c.limiter s.user_id action s.checked s.created in
      (record c { limiter = limiter }, allowed)

  abbrev pub confirmation_ttl_seconds : Float
  confirmation_ttl_seconds = lit 10 0

  -- `_register_confirmation`
  unfoldable pub register_confirmation : Console → Sender → Destructive → Console
  register_confirmation c s action = record c {
    confirmation_state =
        insert (key_of s)
          (record { action = action; expires_at = add s.now confirmation_ttl_seconds })
          c.confirmation_state;
  }

  -- A pending confirmation that has not expired.
  abbrev pub unexpired : Float → Option Pending → Option Pending
  unexpired now none = none
  unexpired now (some pending) = if pending.expires_at <? now then none else some pending

  -- `_consume_confirmation`; the key is popped whether it expired or not.
  unfoldable pub consume_confirmation : Console → Sender → Console × Option Pending
  consume_confirmation c s = (
    record c { confirmation_state = erase (key_of s) c.confirmation_state },
    unexpired s.now (lookup (key_of s) c.confirmation_state),
  )

  -- `cmd_nuke`, `cmd_kill` and `cmd_closeall`, which share the limit of NUKE.
  unfoldable pub cmd_destructive : Destructive → Console → Sender → Console × Reply
  cmd_destructive action c s =
      let (c', allowed) = check_rate_limit c s nuke in
      (
        if allowed then register_confirmation c' s action else c',
        if allowed then registered else rate_limited,
      )

  -- What follows a consumed confirmation.
  abbrev pub execute : Bool → Option Pending → Reply
  execute has_controller none = nothing_pending
  execute has_controller (some pending) =
      if has_controller then force_raised pending.action else controller_unavailable

  unfoldable pub cmd_confirm : Console → Sender → Console × Reply
  cmd_confirm c s =
      let (c', pending) = consume_confirmation c s in (c', execute c.has_controller pending)

  unfoldable pub cmd_cancel : Console → Sender → Console × Reply
  cmd_cancel c s = (
    record c { confirmation_state = erase (key_of s) c.confirmation_state },
    if contains (key_of s) c.confirmation_state then cancelled else nothing_to_cancel,
  )

  -- `cmd_status` and `cmd_positions`
  unfoldable pub cmd_show : RateLimitAction → Console → Sender → Console × Reply
  cmd_show action c s =
      let (c', allowed) = check_rate_limit c s action in
      (c', if allowed then shown else rate_limited)

  abbrev pub set_breaker : Console → Bool → Console
  set_breaker c b = record c {
    portfolio_state = record (c.portfolio_state) { circuit_breaker = b };
  }

  unfoldable pub cmd_pause : Console → Sender → Console × Reply
  cmd_pause c s =
      let (c', allowed) = check_rate_limit c s pause in
      (if allowed then set_breaker c' true else c', if allowed then paused else rate_limited)

  unfoldable pub cmd_resume : Console → Sender → Console × Reply
  cmd_resume c s =
      let (c', allowed) = check_rate_limit c s resume in
      let locked = c.portfolio_state.day_locked in
      (
        if allowed && not locked then set_breaker c' false else c',
        if not allowed then rate_limited else if locked then day_locked else resumed,
      )

  -- The mode that `/setmode` names, in capitals; another word keeps the mode.
  abbrev pub named_mode : String → Mode → Mode
  named_mode word mode =
      if word == "SCALP"
      then scalp_burst
      else if word == "COMPOUND"
      then aggressive_compounding
      else if word == "TARGET"
      then daily_target
      else mode

  unfoldable pub cmd_setmode : String → Console → Console × Reply
  cmd_setmode word c = (
    record c {
      portfolio_state = record (c.portfolio_state) {
        current_mode = named_mode word c.portfolio_state.current_mode;
      };
    },
    mode_set,
  )

  -- `set.discard`
  unfoldable pub discard : String → List String → List String
  discard pair pairs = select (λ (p : String). not (p == pair)) pairs

  unfoldable pub cmd_removepair : String → Console → Console × Reply
  cmd_removepair pair c = (record c { tracked_pairs = discard pair c.tracked_pairs }, pair_removed)

  -- `set.add`
  unfoldable pub cmd_addpair : String → Console → Console × Reply
  cmd_addpair pair c =
      (record c { tracked_pairs = pair ∷ discard pair c.tracked_pairs }, pair_added)

  -- The commands, with who sends them.
  pub data Command : Type 0 where
    destructive : Destructive → Sender → Command
    confirm cancel pauses resumes : Sender → Command
    shows : RateLimitAction → Sender → Command
    setmode addpair removepair : String → Command

  unfoldable pub handle : Console → Command → Console × Reply
  handle c (destructive action s) = cmd_destructive action c s
  handle c (confirm s) = cmd_confirm c s
  handle c (cancel s) = cmd_cancel c s
  handle c (pauses s) = cmd_pause c s
  handle c (resumes s) = cmd_resume c s
  handle c (shows action s) = cmd_show action c s
  handle c (setmode word) = cmd_setmode word c
  handle c (addpair pair) = cmd_addpair pair c
  handle c (removepair pair) = cmd_removepair pair c
