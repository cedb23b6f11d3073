-- ===== src/Security/Buckets.antt =====
-- security/rate_limiter.py over sequences of calls: what the buckets hold, and what users share.
use ghost_grid.Common.{
  ℕ, true, false, ◌≡◌, ◌≢◌, ◌∙◌, refl, List, [], ◌∷◌, All, Dict, lookup, insert, lookup-insert,
  Floats, Float, ◌≤?◌, ◌<?◌, lit, add, sub, mul, div, fmin-le_left, inl, inr, Bool-cases, ◌==◌,
}
use ghost_grid.Security.RateLimiter.{
  RateLimitAction, BucketKey, bucket_key_eq, same_bucket_key_iff, TokenBucket, limit_f, refill,
  try_consume, RateLimiter, new_limiter, drop_stale, cleanup_old_buckets, is_due, check_limit,
}

module _ ⦃F : Floats⦄ where
  -- A bucket holds at most the limit of its action.
  abbrev pub IsBounded : TokenBucket → Type 0
  IsBounded b = (b.tokens ≤? limit_f b.action) ≡ true

  abbrev pub AllBounded : Dict BucketKey TokenBucket → Type 0
  AllBounded d = All (λ e. IsBounded e.1) d

  refill-IsBounded : (b : TokenBucket) (now : Float) → IsBounded (refill b now)
  unfolding refill
  refill-IsBounded b now =
      fmin-le_left (limit_f b.action)
        (add b.tokens (mul (sub now b.last_update_ts) (div (limit_f b.action) (lit 60 0))))

  try_consume-IsBounded : (b : TokenBucket) (now : Float) → IsBounded (try_consume b now).0
  unfolding try_consume
  try_consume-IsBounded b now = elim (Bool-cases (lit 1 0 ≤? (refill b now).tokens)) [
    | inl paid ↦ rw paid (
        F.lte-trans _ (refill b now).tokens _
          (F.sub-le (refill b now).tokens (lit 1 0) (F.lit-nonneg 1 0)) (refill-IsBounded b now))
    | inr short ↦ rw short (refill-IsBounded b now)
  ]

  drop_stale-AllBounded :
      (cutoff : Float) (d : Dict BucketKey TokenBucket)
      → AllBounded d
      → AllBounded (drop_stale cutoff d)
  unfolding drop_stale
  drop_stale-AllBounded cutoff [] h = tt
  drop_stale-AllBounded cutoff ((k, b) ∷ d) h = elim (Bool-cases (b.last_update_ts <? cutoff)) [
    | inl stale ↦ rw stale (drop_stale-AllBounded cutoff d h.1)
    | inr used ↦ rw used (h.0, drop_stale-AllBounded cutoff d h.1)
  ]

  insert-AllBounded :
      (k : BucketKey) (b : TokenBucket) (d : Dict BucketKey TokenBucket)
      → IsBounded b
      → AllBounded d
      → AllBounded (insert k b d)
  unfolding insert
  insert-AllBounded k b [] hb h = (hb, tt)
  insert-AllBounded k b ((j, c) ∷ d) hb h = elim (Bool-cases (j == k)) [
    | inl same ↦ rw same (hb, h.1)
    | inr other ↦ rw other (h.0, insert-AllBounded k b d hb h.1)
  ]

  check_limit-AllBounded :
      (r : RateLimiter) (user_id : ℕ) (action : RateLimitAction) (now created : Float)
      → AllBounded r.buckets
      → AllBounded (check_limit r user_id action now created).0.buckets
  unfolding check_limit cleanup_old_buckets
  check_limit-AllBounded r user_id action now created h = elim (Bool-cases (is_due r now)) [
    | inl due ↦ rw due (
        insert-AllBounded (user_id, action) _ _ (try_consume-IsBounded _ now)
          (drop_stale-AllBounded (sub now (lit 3600 0)) r.buckets h))
    | inr early ↦ rw early (insert-AllBounded (user_id, action) _ _ (try_consume-IsBounded _ now) h)
  ]

  -- A command of an operator, with the two readings of the clock.
  pub record Command : Type 0 where
    pub user_id : ℕ
    pub action : RateLimitAction
    pub now : Float
    pub created : Float

  unfoldable pub check_all : RateLimiter → List Command → RateLimiter
  check_all r [] = r
  check_all r (c ∷ cs) = check_all (check_limit r c.user_id c.action c.now c.created).0 cs

  check_all-bounded :
      (cs : List Command) (r : RateLimiter)
      → AllBounded r.buckets
      → AllBounded (check_all r cs).buckets
  unfolding check_all
  check_all-bounded [] r h = h
  check_all-bounded (c ∷ cs) r h =
      check_all-bounded cs _ (check_limit-AllBounded r c.user_id c.action c.now c.created h)

  -- After any commands at any times, no bucket of a new limiter holds more tokens than the limit of
  -- its action.
  pub check_all-AllBounded :
      (start : Float) (cs : List Command) → AllBounded (check_all (new_limiter start) cs).buckets
  unfolding new_limiter
  check_all-AllBounded start cs = check_all-bounded cs (new_limiter start) tt

  -- Where no cleanup is due, a command leaves the bucket of any other user or action as it was.
  pub check_limit-other :
      (r : RateLimiter) (user_id : ℕ) (action : RateLimitAction) (now created : Float)
      (key : BucketKey)
      → is_due r now ≡ false
      → (user_id, action) ≢ key
      → lookup key (check_limit r user_id action now created).0.buckets ≡ lookup key r.buckets
  unfolding check_limit
  check_limit-other r user_id action now created key early ne = rw early (
      lookup-insert key (user_id, action) _ r.buckets
      ∙ elim (Bool-cases ((user_id, action) == key)) [
        | inl same ↦ absurd (ne ((same_bucket_key_iff (user_id, action) key).0 same))
        | inr other ↦ rw other refl
      ])
