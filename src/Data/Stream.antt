-- ===== src/Data/Stream.antt =====
-- The buffers of data/cvd_engine.py against the whole stream of values and markers.
use ghost_grid.Common.{
  ◌+◌, ◌-◌, ◌≤◌, ◌≡◌, ◌≢◌, ◌∙◌, refl, sym, ap, String, true, false, Option, none, some, List, [],
  ◌∷◌, ◌++◌, arith, length, last_n, length-append, length-drop, last_n-snoc, if◌then◌else◌,
  string_eq, inl, inr, Bool-cases, Floats, Float, zero_f,
}
use ghost_grid.Data.Ring.{
  ring_size, push, CvdEngine, new_engine, is_boundary, mark_boundary, append_value, on_bar_close,
  ema, detect_divergence, neutral,
}

module _ ⦃F : Floats⦄ where
  -- The last entries of a stream.
  abbrev kept : List Float → List Float
  kept xs = last_n ring_size xs

  push-kept : (s : List Float) (x : Float) → push (kept s) x ≡ kept (s ++ x ∷ [])
  unfolding push
  push-kept s x = last_n-snoc ring_size s x

  -- What the engine has been given, with a zero at each change of the session, and the last session.
  pub record Stream : Type 0 where
    pub given : List Float
    pub session : Option String

  abbrev pub feed : Stream → Float → String → Stream
  feed s x session = record {
    given = (if is_boundary s.session session then s.given ++ zero_f ∷ [] else s.given) ++ x ∷ [];
    session = some session;
  }

  abbrev pub feed_all : Stream → List (Float × String) → Stream
  feed_all s [] = s
  feed_all s ((x, session) ∷ is) = feed_all (feed s x session) is

  unfoldable pub update_all : CvdEngine → List (Float × String) → CvdEngine
  update_all e [] = e
  update_all e ((x, session) ∷ is) = update_all (on_bar_close e x session) is

  abbrev Follows : CvdEngine → Stream → Type 0
  Follows e s =
      (e.buffer ≡ kept s.given)
      × (e.last_session ≡ s.session)
      × (length e.smoothed ≡ length e.buffer)

  push-length :
      (xs ys : List Float) (x y : Float)
      → length xs ≡ length ys
      → length (push xs x) ≡ length (push ys y)
  unfolding push
  push-length xs ys x y h = ground (
    arith,
    length-append xs (x ∷ []),
    length-append ys (y ∷ []),
    length-drop 1 (xs ++ x ∷ []),
    length-drop 1 (ys ++ y ∷ []),
  )

  append_value-Follows :
      (e : CvdEngine) (given : List Float) (x : Float) (now : String)
      → e.buffer ≡ kept given
      → length e.smoothed ≡ length e.buffer
      → Follows (append_value e x now) (record { given = given ++ x ∷ []; session = some now })
  unfolding append_value
  append_value-Follows e given x now h k = (
    ap (λ b. push b x) h ∙ push-kept given x,
    refl,
    push-length e.smoothed e.buffer (ema e.smoothed x) x k,
  )

  on_bar_close-Follows :
      (e : CvdEngine) (s : Stream) (x : Float) (now : String)
      → Follows e s
      → Follows (on_bar_close e x now) (feed s x now)
  unfolding on_bar_close mark_boundary
  on_bar_close-Follows e s x now (h, same, k) =
      rw (sym same) (elim (Bool-cases (is_boundary e.last_session now)) [
        | inl crossed ↦ rw crossed (
            append_value-Follows (mark_boundary e) (s.given ++ zero_f ∷ []) x now
              (ap (λ b. push b zero_f) h ∙ push-kept s.given zero_f)
              (push-length e.smoothed e.buffer zero_f zero_f k))
        | inr inside ↦ rw inside (append_value-Follows e s.given x now h k)
      ])

  update_all-Follows :
      (is : List (Float × String)) (e : CvdEngine) (s : Stream)
      → Follows e s
      → Follows (update_all e is) (feed_all s is)
  unfolding update_all
  update_all-Follows [] e s h = h
  update_all-Follows ((x, session) ∷ is) e s h =
      update_all-Follows is (on_bar_close e x session) (feed s x session)
        (on_bar_close-Follows e s x session h)

  abbrev pub empty_stream : Stream
  empty_stream = record { given = []; session = none }

  -- After any closed bars, the ring buffer of a new CVD engine holds the last 200 entries of the
  -- stream of their values, with a zero at each change of session, and the moving average has as
  -- many entries.
  pub update_all-kept :
      (symbol : String) (is : List (Float × String))
      → let e = update_all (new_engine symbol) is in
        (e.buffer ≡ last_n ring_size (feed_all empty_stream is).given)
        × (length e.smoothed ≡ length e.buffer)
        × (length e.buffer ≤ ring_size)
  unfolding new_engine
  update_all-kept symbol is =
      let (h, _, k) = update_all-Follows is (new_engine symbol) empty_stream (refl, refl, refl) in
      let given = (feed_all empty_stream is).given in
      (h, k, ground (arith, h, length-drop (length given - ring_size) given))

  -- A confirmed divergence has at least twenty entries behind it in both buffers, a direction that
  -- is not neutral and a trend that is not aligned, and it is counted once.
  pub detect_divergence-confirmed :
      (sqrt : Float → Float) (e : CvdEngine) (price_trend : Float)
      → (detect_divergence sqrt e price_trend).1.divergence_confirmed ≡ true
      → let (e', signal) = detect_divergence sqrt e price_trend in
        (20 ≤ length e.buffer)
        × (20 ≤ length e.smoothed)
        × (signal.direction ≢ neutral)
        × (signal.trend_aligned ≡ false)
        × (e'.divergences_detected ≡ e.divergences_detected + 1)
  unfolding detect_divergence
  detect_divergence-confirmed sqrt e price_trend h = ground arith
