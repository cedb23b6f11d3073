-- ===== src/Telegram/Confirmed.antt =====
-- What a history of the commands of telegram/commands.py leaves pending, and what it locks.
use ghost_grid.Common.{
  ◌≡◌, ◌≢◌, ◌∙◌, ◌⊎◌, inl, inr, refl, sym, ap, Bool, false, not, ◌&&◌, if-cases, Bool-cases, Option,
  none, some, some-injective, List, [], ◌∷◌, arith, lookup, erase, lookup-insert, lookup-erase,
  lookup-erase_self, Floats, ◌<?◌, add,
}
use ghost_grid.Security.RateLimiter.{nuke, pause, resume}
use ghost_grid.Telegram.Commands.{
  Destructive, ConfirmationKey, same_confirmation_key, same_confirmation_key_iff, confirmation_key,
  force_raised, nothing_pending, Pending, Console, Sender, key_of, confirmation_ttl_seconds,
  register_confirmation, unexpired, consume_confirmation, cmd_destructive, cmd_confirm, cmd_cancel,
  cmd_show, cmd_pause, cmd_resume, cmd_setmode, cmd_addpair, cmd_removepair, execute, Command,
  destructive, confirm, cancel, pauses, resumes, shows, setmode, addpair, removepair, handle,
  check_rate_limit,
}

module _ ⦃F : Floats⦄ where
  -- A console without pending confirmations, after commands; the latest one comes first.
  unfoldable pub after_commands : Console → List Command → Console
  after_commands start [] = record start { confirmation_state = [] }
  after_commands start (c ∷ earlier) = (handle (after_commands start earlier) c).0

  -- A command that asks for what is pending under a key.
  abbrev pub Asks : ConfirmationKey → Pending → Command → Type 0
  Asks k p (destructive action s) =
      (key_of s ≡ k) × (p.action ≡ action) × (p.expires_at ≡ add s.now confirmation_ttl_seconds)
  Asks k p _ = ⊥

  -- A command that leaves what is pending under a key: no confirmation or cancellation by the same user there.
  abbrev pub Leaves : ConfirmationKey → Command → Type 0
  Leaves k (confirm s) = key_of s ≢ k
  Leaves k (cancel s) = key_of s ≢ k
  Leaves k _ = Unit

  -- A request in a history, latest command first, with nothing after it that ends it.
  abbrev pub Backed : ConfirmationKey → Pending → List Command → Type 0
  Backed k p [] = ⊥
  Backed k p (c ∷ earlier) = Asks k p c ⊎ (Leaves k c × Backed k p earlier)

  abbrev fresh : Sender → Destructive → Pending
  fresh s action = record { action = action; expires_at = add s.now confirmation_ttl_seconds }

  registered-Backed :
      (k : ConfirmationKey) (p : Pending) (action : Destructive) (s : Sender) (c : Console)
      (earlier : List Command)
      → (lookup k c.confirmation_state ≡ some p → Backed k p earlier)
      → lookup k (register_confirmation c s action).confirmation_state ≡ some p
      → Backed k p (destructive action s ∷ earlier)
  unfolding register_confirmation
  registered-Backed k p action s c earlier ih e =
      elim (Bool-cases (same_confirmation_key (key_of s) k)) [
        | inl same ↦
            let mine : fresh s action ≡ p =
              some-injective _ _ (rw same at (sym (lookup-insert k (key_of s) _ _) ∙ e)) in
            inl (
              (same_confirmation_key_iff (key_of s) k).0 same,
              ap (λ (q : Pending). q.action) (sym mine),
              ap (λ (q : Pending). q.expires_at) (sym mine),
            )
        | inr other ↦ inr (tt, ih (rw other at (sym (lookup-insert k (key_of s) _ _) ∙ e)))
      ]

  erased-Backed :
      (k : ConfirmationKey) (p : Pending) (s : Sender) (c : Console) (earlier : List Command)
      → (lookup k c.confirmation_state ≡ some p → Backed k p earlier)
      → lookup k (erase (key_of s) c.confirmation_state) ≡ some p
      → (key_of s ≢ k) × Backed k p earlier
  erased-Backed k p s c earlier ih e = elim (Bool-cases (same_confirmation_key (key_of s) k)) [
    | inl same ↦ cc (rw same at (sym (lookup-erase k (key_of s) _) ∙ e))
    | inr other ↦ (
      λ eq. cc (other, (same_confirmation_key_iff (key_of s) k).1 eq),
      ih (rw other at (sym (lookup-erase k (key_of s) _) ∙ e)),
    )
  ]

  nothing_there :
      (k : ConfirmationKey) (p : Pending) → ◌≢◌ {A = Option Pending} (lookup k []) (some p)
  unfolding lookup
  nothing_there k p e = cc e

  abbrev Same : Console → List Command → ConfirmationKey → Pending → Type 0
  Same start earlier k p = lookup k (after_commands start earlier).confirmation_state ≡ some p

  lookup-Backed :
      (start : Console) (commands : List Command) (k : ConfirmationKey) (p : Pending)
      → lookup k (after_commands start commands).confirmation_state ≡ some p
      → Backed k p commands
  unfolding after_commands handle cmd_destructive cmd_confirm cmd_cancel cmd_show cmd_pause
      cmd_resume cmd_setmode cmd_addpair cmd_removepair consume_confirmation
  lookup-Backed start [] k p e = absurd (nothing_there k p e)
  lookup-Backed start (destructive action s ∷ earlier) k p e =
      let c : Console = after_commands start earlier in
      let ih : lookup k c.confirmation_state ≡ some p → Backed k p earlier =
        lookup-Backed start earlier k p in
      let checked : Console × Bool = check_rate_limit c s nuke in
      if-cases
        (λ (c' : Console).
          lookup k c'.confirmation_state ≡ some p → Backed k p (destructive action s ∷ earlier))
        checked.1 (λ _. registered-Backed k p action s checked.0 earlier ih)
        (λ _ e'. inr (tt, ih e')) e
  lookup-Backed start (confirm s ∷ earlier) k p e = inr (
      erased-Backed k p s (after_commands start earlier) earlier (lookup-Backed start earlier k p)
        e)
  lookup-Backed start (cancel s ∷ earlier) k p e = inr (
      erased-Backed k p s (after_commands start earlier) earlier (lookup-Backed start earlier k p)
        e)
  lookup-Backed start (pauses s ∷ earlier) k p e = inr (
    tt,
    lookup-Backed start earlier k p (
        if-cases
          (λ (c' : Console). lookup k c'.confirmation_state ≡ some p → Same start earlier k p)
          (check_rate_limit (after_commands start earlier) s pause).1 (λ _ e'. e') (λ _ e'. e') e),
  )
  lookup-Backed start (resumes s ∷ earlier) k p e = inr (
    tt,
    lookup-Backed start earlier k p (
        if-cases
          (λ (c' : Console). lookup k c'.confirmation_state ≡ some p → Same start earlier k p)
          ((check_rate_limit (after_commands start earlier) s resume).1
            && not (after_commands start earlier).portfolio_state.day_locked)
          (λ _ e'. e') (λ _ e'. e') e),
  )
  lookup-Backed start (shows action s ∷ earlier) k p e = inr (tt, lookup-Backed start earlier k p e)
  lookup-Backed start (setmode word ∷ earlier) k p e = inr (tt, lookup-Backed start earlier k p e)
  lookup-Backed start (addpair pair ∷ earlier) k p e = inr (tt, lookup-Backed start earlier k p e)
  lookup-Backed start (removepair pair ∷ earlier) k p e =
      inr (tt, lookup-Backed start earlier k p e)

  -- Where /confirm calls for a destructive action after any commands on a console without pending
  -- confirmations, the same user asked for that action in the same chat with no /confirm or /cancel
  -- of theirs since, and the time of expiry, ten seconds after that request, is not past; a next
  -- /confirm by this user in this chat finds nothing pending.
  pub cmd_confirm-Backed :
      (start : Console) (commands : List Command) (s : Sender) (action : Destructive)
      → let asked = cmd_confirm (after_commands start commands) s in
        asked.1 ≡ force_raised action
        → ((p : Pending) × Backed (key_of s) p commands
            × (p.action ≡ action)
            × ((p.expires_at <? s.now) ≡ false))
          × ((s' : Sender) → key_of s' ≡ key_of s → (cmd_confirm asked.0 s').1 ≡ nothing_pending)
  unfolding cmd_confirm consume_confirmation
  cmd_confirm-Backed start commands s action e = (pending _ refl e, again)
    where
      c : Console
      c = after_commands start commands

      pending :
          (o : Option Pending)
          → lookup (key_of s) c.confirmation_state ≡ o
          → execute c.has_controller (unexpired s.now o) ≡ force_raised action
          → (p : Pending) × Backed (key_of s) p commands
            × (p.action ≡ action)
            × ((p.expires_at <? s.now) ≡ false)
      pending none found e' = cc
      pending (some p) found e' =
          (p, lookup-Backed start commands (key_of s) p found, ground arith, ground arith)

      again :
          (s' : Sender)
          → key_of s' ≡ key_of s
          → execute c.has_controller
              (unexpired s'.now (lookup (key_of s') (erase (key_of s) c.confirmation_state)))
            ≡ nothing_pending
      again s' same =
          ap (λ o. execute c.has_controller (unexpired s'.now o))
            (ap (λ k. lookup k (erase (key_of s) c.confirmation_state)) same
              ∙ lookup-erase_self (key_of s) c.confirmation_state)
