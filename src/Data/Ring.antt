-- ===== src/Data/Ring.antt =====
-- data/cvd_engine.py: the two ring buffers of CVD values, and the detection of divergences. The square
-- root is a parameter. A deque of at most 200 entries drops its oldest one when it is full.
use ghost_grid.Common.{
  ℕ, ◌+◌, ◌-◌, String, Bool, false, not, ◌&&◌, ◌||◌, Option, none, some, List, [], ◌∷◌, ◌++◌, map,
  ltb, leb, length, drop, last_n, get_last?, if◌then◌else◌, string_eq, ◌==◌, Floats, Float, ◌<?◌,
  lit, zero_f, add, sub, mul, div, abs, sum_from,
}

pub data Side : Type 0 where
  buy sell neutral : Side

-- `CVD_RING_BUFFER_SIZE`
abbrev pub ring_size : ℕ
ring_size = 200

module _ ⦃F : Floats⦄ where
  -- `append` of a deque with `maxlen`.
  unfoldable pub push : List Float → Float → List Float
  push xs x = let ys = xs ++ x ∷ [] in if ltb ring_size (length ys) then drop 1 ys else ys

  pub record CvdEngine : Type 0 where
    pub symbol : String
    pub buffer : List Float
    pub smoothed : List Float
    pub last_session : Option String
    pub total_updates : ℕ
    pub session_boundaries : ℕ
    pub buffer_overflows : ℕ
    pub divergences_detected : ℕ

  unfoldable pub new_engine : String → CvdEngine
  new_engine symbol = record {
    symbol = symbol;
    buffer = [];
    smoothed = [];
    last_session = none;
    total_updates = 0;
    session_boundaries = 0;
    buffer_overflows = 0;
    divergences_detected = 0;
  }

  abbrev pub is_boundary : Option String → String → Bool
  is_boundary none session = false
  is_boundary (some last) session = not (session == last)

  -- The marker of a session boundary.
  unfoldable pub mark_boundary : CvdEngine → CvdEngine
  mark_boundary e = record e {
    buffer = push e.buffer zero_f;
    smoothed = push e.smoothed zero_f;
    session_boundaries = e.session_boundaries + 1;
    buffer_overflows =
        if leb (ring_size - 1) (length e.buffer)
        then e.buffer_overflows + 1
        else e.buffer_overflows;
  }

  -- The next entry of the moving average.
  abbrev pub ema : List Float → Float → Float
  ema smoothed cvd_value = elim (get_last? smoothed) [
    | none ↦ cvd_value
    | some last ↦ add (mul (lit 15 2) cvd_value) (mul (sub (lit 1 0) (lit 15 2)) last)
  ]

  unfoldable pub append_value : CvdEngine → Float → String → CvdEngine
  append_value e cvd_value session = record e {
    last_session = some session;
    buffer = push e.buffer cvd_value;
    smoothed = push e.smoothed (ema e.smoothed cvd_value);
    total_updates = e.total_updates + 1;
  }

  unfoldable pub on_bar_close : CvdEngine → Float → String → CvdEngine
  on_bar_close e cvd_value session =
      append_value (if is_boundary e.last_session session then mark_boundary e else e) cvd_value
        session

  pub record CvdSignal : Type 0 where
    pub divergence_confirmed : Bool
    pub z_score : Float
    pub direction : Side
    pub trend_aligned : Bool

  abbrev pub zip_sub : List Float → List Float → List Float
  zip_sub (r ∷ rs) (s ∷ ss) = sub r s ∷ zip_sub rs ss
  zip_sub _ _ = []

  -- `l[-n]` for n at most the length.
  abbrev pub at_end : ℕ → List Float → Float
  at_end n xs = elim (last_n n xs) [ [] ↦ zero_f | x ∷ _ ↦ x ]

  abbrev pub is_divergence : Bool → Bool → Bool
  is_divergence price_up cvd_up = (price_up && not cvd_up) || (not price_up && cvd_up)

  abbrev pub side_of : Bool → Bool → Side
  side_of price_up cvd_up =
      if price_up && not cvd_up then sell else if not price_up && cvd_up then buy else neutral

  -- The Z-score of the last residual among the last twenty.
  unfoldable pub z_score_of : (Float → Float) → List Float → List Float → Float
  z_score_of sqrt raw smoothed =
      let residuals = zip_sub (last_n 20 raw) (last_n 20 smoothed) in
      let n = lit (length residuals) 0 in
      let mean = div (sum_from zero_f residuals) n in
      let variance = div (sum_from zero_f (map (λ r. mul (sub r mean) (sub r mean)) residuals)) n in
      let std = if zero_f <? variance then sqrt variance else lit 1 9 in
      if zero_f <? std then div (sub (at_end 1 raw) (at_end 1 smoothed)) std else zero_f

  unfoldable pub detect_divergence : (Float → Float) → CvdEngine → Float → CvdEngine × CvdSignal
  detect_divergence sqrt e price_trend =
      if ltb (length e.buffer) 20 || ltb (length e.smoothed) 20
      then (
        e,
        record {
          divergence_confirmed = false;
          z_score = zero_f;
          direction = neutral;
          trend_aligned = false;
        },
      )
      else (let z = z_score_of sqrt e.buffer e.smoothed in
          let price_up = zero_f <? price_trend in
          let cvd_up = zero_f <? sub (at_end 1 e.buffer) (at_end 10 e.buffer) in
          let divergence = is_divergence price_up cvd_up in
          let confirmed = divergence && lit 2 0 <? abs z in
          (
            record e {
              divergences_detected =
                  if confirmed then e.divergences_detected + 1 else e.divergences_detected;
            },
            record {
              divergence_confirmed = confirmed;
              z_score = z;
              direction = side_of price_up cvd_up;
              trend_aligned = not divergence;
            },
          ))
