-- ===== src/Security/RateLimiter.antt =====
-- security/rate_limiter.py. A call reads the clock twice, for itself and for a new bucket; both readings
-- are arguments, in seconds. The logging is left out.
use ghost_grid.Common.{
  ℕ, Bool, true, false, ◌&&◌, ◌≡◌, ◌↔◌, [], ◌∷◌, nat_beq, arith, if◌then◌else◌, Key, Dict, lookup,
  insert, get_or, Floats, Float, ◌≤?◌, ◌<?◌, lit, add, sub, mul, div, fmin, ap,
}

pub data RateLimitAction : Type 0 where
  nuke pause resume status positions : RateLimitAction

-- `RATE_LIMITS`
abbrev pub rate_limit : RateLimitAction → ℕ
rate_limit nuke = 3
rate_limit pause = 10
rate_limit resume = 10
rate_limit status = 30
rate_limit positions = 30

abbrev pub action_code : RateLimitAction → ℕ
action_code nuke = 0
action_code pause = 1
action_code resume = 2
action_code status = 3
action_code positions = 4

action_code-injective : (a b : RateLimitAction) → action_code a ≡ action_code b → a ≡ b
action_code-injective nuke b h = ground arith
action_code-injective pause b h = ground arith
action_code-injective resume b h = ground arith
action_code-injective status b h = ground arith
action_code-injective positions b h = ground arith

-- The keys of the dict of buckets: a user and an action.
abbrev pub BucketKey : Type 0
BucketKey = ℕ × RateLimitAction

abbrev pub same_bucket_key : BucketKey → BucketKey → Bool
same_bucket_key (u, a) (v, b) = nat_beq u v && nat_beq (action_code a) (action_code b)

pub same_bucket_key_iff : (j k : BucketKey) → (same_bucket_key j k ≡ true) ↔ (j ≡ k)
same_bucket_key_iff (u, a) (v, b) = (
  λ h. grind (arith, action_code-injective a b),
  λ h. rw (ap (λ k. k.0) h, ap (λ k. k.1) h) (ground arith),
)

instance abbrev pub bucket_key_eq : Key BucketKey
bucket_key_eq = record { same_key = same_bucket_key; same_key_iff = same_bucket_key_iff }

module _ ⦃F : Floats⦄ where
  pub record TokenBucket : Type 0 where
    pub user_id : ℕ
    pub action : RateLimitAction
    pub tokens : Float
    pub last_update_ts : Float

  abbrev pub limit_f : RateLimitAction → Float
  limit_f a = lit (rate_limit a) 0

  unfoldable pub refill : TokenBucket → Float → TokenBucket
  refill b now =
      let elapsed = sub now b.last_update_ts in
      let max_tokens = limit_f b.action in
      record b {
        tokens = fmin max_tokens (add b.tokens (mul elapsed (div max_tokens (lit 60 0))));
        last_update_ts = now;
      }

  -- `try_consume` at the cost of one token.
  unfoldable pub try_consume : TokenBucket → Float → TokenBucket × Bool
  try_consume b now =
      let b' = refill b now in
      if lit 1 0 ≤? b'.tokens
      then (record b' { tokens = sub b'.tokens (lit 1 0) }, true)
      else (b', false)

  pub record RateLimiter : Type 0 where
    pub buckets : Dict BucketKey TokenBucket
    pub last_cleanup : Float

  unfoldable pub new_limiter : Float → RateLimiter
  new_limiter now = record { buckets = []; last_cleanup = now }

  -- `_cleanup_old_buckets`: the buckets not used for an hour are deleted.
  unfoldable pub drop_stale : Float → Dict BucketKey TokenBucket → Dict BucketKey TokenBucket
  drop_stale cutoff [] = []
  drop_stale cutoff ((k, b) ∷ d) =
      let rest = drop_stale cutoff d in if b.last_update_ts <? cutoff then rest else (k, b) ∷ rest

  unfoldable pub cleanup_old_buckets : RateLimiter → Float → RateLimiter
  cleanup_old_buckets r now = record r { buckets = drop_stale (sub now (lit 3600 0)) r.buckets }

  abbrev pub new_bucket : ℕ → RateLimitAction → Float → TokenBucket
  new_bucket user_id action created = record {
    user_id = user_id;
    action = action;
    tokens = limit_f action;
    last_update_ts = created;
  }

  abbrev pub is_due : RateLimiter → Float → Bool
  is_due r now = lit 300 0 <? sub now r.last_cleanup

  unfoldable pub check_limit :
      RateLimiter → ℕ → RateLimitAction → Float → Float → RateLimiter × Bool
  check_limit r user_id action now created =
      let r' = if is_due r now then cleanup_old_buckets r now else r in
      let bucket =
        get_or (lookup (user_id, action) r'.buckets) (new_bucket user_id action created) in
      let (bucket', allowed) = try_consume bucket now in
      (record r' { buckets = insert (user_id, action) bucket' r'.buckets }, allowed)
