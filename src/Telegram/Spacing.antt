-- ===== src/Telegram/Spacing.antt =====
-- How close together telegram/alerts.py lets messages of normal priority go out.
use ghost_grid.Common.{
  ℕ, suc, ◌-◌, ◌≤◌, ◌<◌, ◌≡◌, ◌∙◌, refl, sym, ap, Bool, true, false, not, ◌&&◌, List, [], ◌∷◌, ◌++◌,
  length, ltb, if◌then◌else◌, arith,
}
use ghost_grid.Telegram.Alerts.{TelegramRateLimiter, pop_old, allow}

-- How many of some times are at most a window before another.
abbrev pub count_within : ℕ → ℕ → List ℕ → ℕ
count_within window now [] = 0
count_within window now (t ∷ ts) =
    let rest = count_within window now ts in if ltb window (now - t) then rest else suc rest

-- Times, latest first, each with less than so many earlier ones in the window before it.
abbrev pub IsSpaced : ℕ → ℕ → List ℕ → Type 0
IsSpaced most window [] = Unit
IsSpaced most window (t ∷ earlier) =
    (count_within window t earlier < most) × IsSpaced most window earlier

-- Calls at times that do not run backwards.
abbrev pub IsOrdered : ℕ → List (Bool × ℕ) → Type 0
IsOrdered since [] = Unit
IsOrdered since ((high, now) ∷ calls) = (since ≤ now) × IsOrdered now calls

-- Calls of `allow`, and the times of the normal messages that it lets out, latest first.
unfoldable pub allow_all :
    TelegramRateLimiter → List ℕ → List (Bool × ℕ) → TelegramRateLimiter × List ℕ
allow_all r sent [] = (r, sent)
allow_all r sent ((high, now) ∷ calls) =
    let (r', allowed) = allow r high now in
    allow_all r' (if not high && allowed then now ∷ sent else sent) calls

count-append :
    (window now t : ℕ) (ts : List ℕ)
    → count_within window now (ts ++ t ∷ []) ≡ count_within window now (t ∷ ts)
count-append window now t [] = refl
count-append window now t (u ∷ ts) = ground (arith, count-append window now t ts)

-- What is popped is old at every later time.
count-pop_old :
    (window now later : ℕ) (ts : List ℕ)
    → now ≤ later
    → count_within window later (pop_old now window ts) ≡ count_within window later ts
unfolding pop_old
count-pop_old window now later [] h = refl
count-pop_old window now later (t ∷ ts) h = ground (arith, count-pop_old window now later ts h, h)

count-le : (window now : ℕ) (ts : List ℕ) → count_within window now ts ≤ length ts
count-le window now [] = omega arith
count-le window now (t ∷ ts) = ground (arith, count-le window now ts)

-- The timestamps stand for all that was sent, from a time on.
record Stands (most window since : ℕ) (sent : List ℕ) (r : TelegramRateLimiter) : Type 0 where
  most_kept : r.max_messages ≡ most
  window_kept : r.window_seconds ≡ window
  counts :
      (later : ℕ)
      → since ≤ later
      → count_within window later r.timestamps ≡ count_within window later sent
  spaced : IsSpaced most window sent

count-popped :
    (most window since now : ℕ) (sent : List ℕ) (r : TelegramRateLimiter)
    → since ≤ now
    → Stands most window since sent r
    → (later : ℕ) → now ≤ later
    → count_within window later (pop_old now r.window_seconds r.timestamps)
      ≡ count_within window later sent
count-popped most window since now sent r h v later k =
    ap (λ w. count_within window later (pop_old now w r.timestamps)) v.window_kept
    ∙ count-pop_old window now later r.timestamps k
    ∙ v.counts later (omega arith)

room-Stands :
    (most window since now : ℕ) (sent : List ℕ) (r : TelegramRateLimiter) (room : Bool)
    → since ≤ now
    → Stands most window since sent r
    → (room ≡ true → length (pop_old now r.window_seconds r.timestamps) < most)
    → let recent = pop_old now r.window_seconds r.timestamps in
      Stands most window now
        (if room then now ∷ sent else sent)
        (record r { timestamps = if room then recent ++ now ∷ [] else recent })
room-Stands most window since now sent r true h v few = record {
  most_kept = v.most_kept;
  window_kept = v.window_kept;
  counts = λ later k.
      count-append window later now (pop_old now r.window_seconds r.timestamps)
      ∙ ap (λ n. if ltb window (later - now) then n else suc n) (popped later k);
  spaced = (
    omega (
      arith,
      few refl,
      sym (popped now (omega arith)),
      count-le window now (pop_old now r.window_seconds r.timestamps),
    ),
    v.spaced,
  );
}
  where
    popped :
        (later : ℕ)
        → now ≤ later
        → count_within window later (pop_old now r.window_seconds r.timestamps)
          ≡ count_within window later sent
    popped = count-popped most window since now sent r h v
room-Stands most window since now sent r false h v few = record {
  most_kept = v.most_kept;
  window_kept = v.window_kept;
  counts = count-popped most window since now sent r h v;
  spaced = v.spaced;
}

allow-Stands :
    (most window since now : ℕ) (high : Bool) (sent : List ℕ) (r : TelegramRateLimiter)
    → since ≤ now
    → Stands most window since sent r
    → Stands most window now
        (if not high && (allow r high now).1 then now ∷ sent else sent)
        (allow r high now).0
unfolding allow
allow-Stands most window since now true sent r h v = record {
  most_kept = v.most_kept;
  window_kept = v.window_kept;
  counts = λ later k. v.counts later (omega arith);
  spaced = v.spaced;
}
allow-Stands most window since now false sent r h v =
    room-Stands most window since now sent r
      (ltb (length (pop_old now r.window_seconds r.timestamps)) r.max_messages) h v
      (λ room. ground (arith, room, v.most_kept))

allow_all-Stands :
    (most window since : ℕ) (calls : List (Bool × ℕ)) (sent : List ℕ) (r : TelegramRateLimiter)
    → IsOrdered since calls
    → Stands most window since sent r
    → IsSpaced most window (allow_all r sent calls).1
unfolding allow_all
allow_all-Stands most window since [] sent r h v = v.spaced
allow_all-Stands most window since ((high, now) ∷ calls) sent r h v =
    allow_all-Stands most window now calls _ (allow r high now).0 h.1
      (allow-Stands most window since now high sent r h.0 v)

-- Where the clock does not run backwards, a message of normal priority goes out only while fewer
-- than max_messages earlier ones went out in the window before it.
pub allow_all-IsSpaced :
    (most window : ℕ) (calls : List (Bool × ℕ))
    → IsOrdered 0 calls
    → IsSpaced most window
        (allow_all
          (record { max_messages = most; window_seconds = window; timestamps = [] })
          []
          calls).1
allow_all-IsSpaced most window calls h =
    allow_all-Stands most window 0 calls [] _ h
      (record { most_kept = refl; window_kept = refl; counts = λ later k. refl; spaced = tt })
