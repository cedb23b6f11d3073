-- ===== src/Data/Sessions.antt =====
-- The warm-up of data/atr.py, and the sums of data/vwap.py over the ticks of one session.
use Prim.Native.Nat.{min}
use ghost_grid.Common.{
  ℕ, subst, suc, ◌+◌, ◌-◌, ◌≤◌, ◌≡◌, ◌∙◌, refl, ap, String, true, false, Option, none, some, List,
  [], ◌∷◌, ◌++◌, All, leb, nat_beq, length, length-append, if◌then◌else◌, arith, string_eq, ==_refl,
  Floats, Float, lit, zero_f, add, mul,
}
use ghost_grid.Data.Bars.{Ohlcv, Tick}
use ghost_grid.Data.Averages.{
  AtrCalculator, new_atr, true_range, update_atr, update_atr_all, VwapCalculator, new_vwap,
  update_vwap, update_vwap_all, is_current, typical_price,
}

module _ ⦃F : Floats⦄ where
  -- A calculator of a period after a number of bars.
  pub record IsAfter (period n : ℕ) (c : AtrCalculator) : Type 0 where
    pub same_period : c.period ≡ period
    pub total : c.metrics.total_bars ≡ n
    pub ranges : length c.true_ranges ≡ min n period
    pub warmup : c.metrics.warmup_bars ≡ min n period
    pub smoothed : c.metrics.updates ≡ n - period
    pub ready : c.initialised ≡ leb period n

  update_atr-IsAfter :
      (period n : ℕ) (c : AtrCalculator) (bar : Ohlcv)
      → 1 ≤ period
      → IsAfter period n c
      → IsAfter period (n + 1) (update_atr c bar)
  unfolding update_atr
  update_atr-IsAfter period n c bar pos v = ground (
    arith,
    length-append c.true_ranges (true_range bar zero_f ∷ []),
    v.same_period,
    v.total,
    v.ranges,
    v.warmup,
    v.smoothed,
    v.ready,
  )

  run-IsAfter :
      (period n : ℕ) (c : AtrCalculator) (bars : List Ohlcv)
      → 1 ≤ period
      → IsAfter period n c
      → IsAfter period (length bars + n) (update_atr_all c bars)
  unfolding update_atr_all
  run-IsAfter period n c [] pos v =
      subst (λ k. IsAfter period k c) {x = n} {y = 0 + n} (omega arith) v
  run-IsAfter period n c (bar ∷ bars) pos v =
      subst (λ k. IsAfter period k (update_atr_all (update_atr c bar) bars))
        {x = length bars + (n + 1)} {y = suc (length bars) + n} (omega arith)
        (run-IsAfter period (n + 1) (update_atr c bar) bars pos
          (update_atr-IsAfter period n c bar pos v))

  -- What the ticks of a session add to a sum.
  abbrev pub tp_sum : Float → List Tick → Float
  tp_sum a [] = a
  tp_sum a (t ∷ ticks) =
      tp_sum
        (if nat_beq t.tick_volume 0 then a else add a (mul (typical_price t) (lit t.tick_volume 0)))
        ticks

  abbrev pub volume_total : Float → List Tick → Float
  volume_total a [] = a
  volume_total a (t ∷ ticks) =
      volume_total (if nat_beq t.tick_volume 0 then a else add a (lit t.tick_volume 0)) ticks

  -- The session of the last tick.
  abbrev pub session_of : List Tick → Option String
  session_of [] = none
  session_of (t ∷ []) = some t.session
  session_of (_ ∷ t ∷ ticks) = session_of (t ∷ ticks)

  -- The three fields of the sums after a tick, whether it starts a session or not.
  abbrev added : Float → Tick → Float → Float
  added a t b = if nat_beq t.tick_volume 0 then a else add a b

  update_vwap-session :
      (c : VwapCalculator) (t : Tick) → (update_vwap c t).last_session ≡ some t.session
  unfolding update_vwap
  update_vwap-session c t = ground (arith, current-session c.last_session t.session)
    where
      current-session :
          (o : Option String) (session : String) → is_current o session ≡ true → o ≡ some session
      current-session none session h = cc
      current-session (some last) session h = ap some ((string_eq.same_key_iff last session).0 h)

  update_vwap-same :
      (c : VwapCalculator) (t : Tick)
      → is_current c.last_session t.session ≡ true
      → let r = update_vwap c t in
        (r.cum_tp_volume ≡ added c.cum_tp_volume t (mul (typical_price t) (lit t.tick_volume 0)))
        × (r.cum_volume ≡ added c.cum_volume t (lit t.tick_volume 0))
  unfolding update_vwap
  update_vwap-same c t h = ground arith

  update_vwap-new :
      (c : VwapCalculator) (t : Tick)
      → is_current c.last_session t.session ≡ false
      → let r = update_vwap c t in
        (r.cum_tp_volume ≡ added zero_f t (mul (typical_price t) (lit t.tick_volume 0)))
        × (r.cum_volume ≡ added zero_f t (lit t.tick_volume 0))
  unfolding update_vwap
  update_vwap-new c t h = ground arith

  update_vwap_all-append :
      (c : VwapCalculator) (before ticks : List Tick)
      → update_vwap_all c (before ++ ticks) ≡ update_vwap_all (update_vwap_all c before) ticks
  unfolding update_vwap_all
  update_vwap_all-append c [] ticks = refl
  update_vwap_all-append c (t ∷ before) ticks =
      update_vwap_all-append (update_vwap c t) before ticks

  run-session :
      (c : VwapCalculator) (t : Tick) (ticks : List Tick)
      → (update_vwap_all c (t ∷ ticks)).last_session ≡ session_of (t ∷ ticks)
  unfolding update_vwap_all
  run-session c t [] = update_vwap-session c t
  run-session c t (u ∷ ticks) = run-session (update_vwap c t) u ticks

  after-session :
      (ticks : List Tick) → (update_vwap_all new_vwap ticks).last_session ≡ session_of ticks
  unfolding update_vwap_all new_vwap
  after-session [] = refl
  after-session (t ∷ ticks) = run-session new_vwap t ticks

  same-session :
      (c : VwapCalculator) (s : String) (ticks : List Tick)
      → c.last_session ≡ some s
      → All (λ t. t.session ≡ s) ticks
      → let r = update_vwap_all c ticks in
        (r.cum_tp_volume ≡ tp_sum c.cum_tp_volume ticks)
        × (r.cum_volume ≡ volume_total c.cum_volume ticks)
  unfolding update_vwap_all
  same-session c s [] e h = (refl, refl)
  same-session c s (t ∷ ticks) e h =
      let (p, q) = update_vwap-same c t (rw (e, h.0) (==_refl s)) in
      let (p', q') =
        same-session (update_vwap c t) s ticks (update_vwap-session c t ∙ ap some h.0) h.1 in
      (p' ∙ ap (λ a. tp_sum a ticks) p, q' ∙ ap (λ a. volume_total a ticks) q)

  -- Where a tick starts a session that the tick before it, if any, was not in, and all later ticks
  -- are in the same session, the two sums are those of this tick and the later ones that have a
  -- volume.
  pub update_vwap_all-session :
      (before ticks : List Tick) (t : Tick)
      → is_current (session_of before) t.session ≡ false
      → All (λ u. u.session ≡ t.session) ticks
      → let c = update_vwap_all new_vwap (before ++ t ∷ ticks) in
        (c.cum_tp_volume ≡ tp_sum zero_f (t ∷ ticks))
        × (c.cum_volume ≡ volume_total zero_f (t ∷ ticks))
  unfolding update_vwap_all
  update_vwap_all-session before ticks t changed same =
      let c = update_vwap_all new_vwap before in
      let (p, q) = update_vwap-new c t (rw (after-session before) changed) in
      let (p', q') =
        same-session (update_vwap c t) t.session ticks (update_vwap-session c t) same in
      rw (update_vwap_all-append new_vwap before (t ∷ ticks))
        (p' ∙ ap (λ a. tp_sum a ticks) p, q' ∙ ap (λ a. volume_total a ticks) q)

  new_atr-IsAfter : (period : ℕ) → 1 ≤ period → IsAfter period 0 (new_atr period)
  unfolding new_atr
  new_atr-IsAfter period pos = record {
    same_period = refl;
    total = refl;
    ranges = omega arith;
    warmup = omega arith;
    smoothed = omega arith;
    ready = ground arith;
  }

  -- A new calculator with a period of at least one counts all bars, takes the first ones up to its
  -- period into the warm-up and smooths the others, and is initialised exactly from as many bars as
  -- its period.
  pub update_atr_all-IsAfter :
      (period : ℕ) (bars : List Ohlcv)
      → 1 ≤ period
      → IsAfter period (length bars) (update_atr_all (new_atr period) bars)
  update_atr_all-IsAfter period bars pos =
      subst (λ k. IsAfter period k (update_atr_all (new_atr period) bars)) {x = length bars + 0}
        {y = length bars} (omega arith)
        (run-IsAfter period 0 (new_atr period) bars pos (new_atr-IsAfter period pos))
