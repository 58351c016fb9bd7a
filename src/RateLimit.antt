-- ===== src/RateLimit.antt =====
-- internal/ratelimit/limiter.go: the token bucket and the limiter with a global bucket and one for
-- each client address. A time is a number of nanoseconds of the monotonic clock, read by the
-- caller; rates and capacities are the natural numbers below 2 ^ 63.
pub mod Bucket
pub mod TwoTier
pub mod Interleaved
mod Examples
use perion_assignment.Common.{
  ℕ, zero, suc, ◌+◌, ◌-◌, ◌*◌, ◌/◌, ◌^◌, Bool, true, false, Option, none, some, List, [], ◌∷◌, ltb,
  not, if◌then◌else◌,
}
pub use perion_assignment.Float.{second}
use perion_assignment.Float.{scaled_seconds}
use perion_assignment.Text.{Text}
use perion_assignment.Dict.{Dict, get, put, keep_if}

-- `30 * time.Minute`.
abbrev pub half_hour : ℕ
half_hour = 1_800_000_000_000

pub record TokenBucket : Type 0 where
  pub capacity : ℕ
  pub tokens : ℕ
  pub refill_rate : ℕ
  pub last_refill : ℕ

unfoldable pub new_token_bucket : (capacity refill_rate now : ℕ) → TokenBucket
new_token_bucket capacity refill_rate now = record {
  capacity = capacity;
  tokens = capacity;
  refill_rate = refill_rate;
  last_refill = now;
}

unfoldable pub min_int64 : ℕ → ℕ → ℕ
min_int64 a b = if ltb a b then a else b

-- The tokens for a time in float64 arithmetic.
unfoldable pub tokens_to_add : (elapsed refill_rate : ℕ) → ℕ
tokens_to_add elapsed refill_rate = scaled_seconds elapsed refill_rate

unfoldable pub refill : ℕ → TokenBucket → TokenBucket
unfolding min_int64
refill now tb =
    let added = tokens_to_add (now - tb.last_refill) tb.refill_rate in
    if ltb 0 added
    then record tb { tokens = min_int64 tb.capacity (tb.tokens + added); last_refill = now }
    else tb

-- The test of `Allow` behind the refill.
unfoldable pub take_token : TokenBucket → TokenBucket × Bool
take_token tb =
    if ltb 0 tb.tokens then (record tb { tokens = tb.tokens - 1 }, true) else (tb, false)

-- `TokenBucket.Allow` at a time.
unfoldable pub allow : ℕ → TokenBucket → TokenBucket × Bool
unfolding refill take_token
allow now tb = take_token (refill now tb)

pub record TwoTierRateLimiter : Type 0 where
  pub global_bucket : TokenBucket
  pub ip_buckets : Dict TokenBucket
  pub per_ip_capacity : ℕ
  pub per_ip_rate : ℕ

unfoldable pub new_two_tier :
    (global_capacity global_rate per_ip_capacity per_ip_rate now : ℕ) → TwoTierRateLimiter
unfolding new_token_bucket
new_two_tier global_capacity global_rate per_ip_capacity per_ip_rate now = record {
  global_bucket = new_token_bucket global_capacity global_rate now;
  ip_buckets = [];
  per_ip_capacity = per_ip_capacity;
  per_ip_rate = per_ip_rate;
}

-- `getOrCreateIPBucket`: the bucket, and the limiter that has it.
abbrev pub found_or_new :
    TwoTierRateLimiter → Text → ℕ → Option TokenBucket → TwoTierRateLimiter × TokenBucket
found_or_new trl ip now (some bucket) = (trl, bucket)
found_or_new trl ip now none =
    let bucket = new_token_bucket trl.per_ip_capacity trl.per_ip_rate now in
    (record trl { ip_buckets = put ip bucket trl.ip_buckets }, bucket)

unfoldable pub get_or_create_ip_bucket :
    Text → ℕ → TwoTierRateLimiter → TwoTierRateLimiter × TokenBucket
get_or_create_ip_bucket ip now trl = found_or_new trl ip now (get ip trl.ip_buckets)

unfoldable pub return_global_token : TwoTierRateLimiter → TwoTierRateLimiter
return_global_token trl =
    let g = trl.global_bucket in
    if ltb g.tokens g.capacity
    then record trl { global_bucket = record g { tokens = g.tokens + 1 } }
    else trl

-- The bucket of an address, which the map holds by reference, has been asked: the global token
-- goes back if it refused.
abbrev pub settle : Text → TwoTierRateLimiter → TokenBucket × Bool → TwoTierRateLimiter × Bool
settle ip trl (bucket, true) = (record trl { ip_buckets = put ip bucket trl.ip_buckets }, true)
settle ip trl (bucket, false) =
    (return_global_token (record trl { ip_buckets = put ip bucket trl.ip_buckets }), false)

unfoldable pub allow_ip : ℕ → Text → TwoTierRateLimiter × TokenBucket → TwoTierRateLimiter × Bool
allow_ip now ip (trl, bucket) = settle ip trl (allow now bucket)

-- `TwoTierRateLimiter.Allow`, which goes on if the global bucket gave a token; the clock is read for
-- the global bucket, for a bucket that is created, and for the bucket of the address.
unfoldable pub allow_global :
    (t_new t_ip : ℕ) → Text → TwoTierRateLimiter → Bool → TwoTierRateLimiter × Bool
allow_global t_new t_ip ip trl false = (trl, false)
allow_global t_new t_ip ip trl true = allow_ip t_ip ip (get_or_create_ip_bucket ip t_new trl)

unfoldable pub allow_two_tier :
    (t_global t_new t_ip : ℕ) → Text → TwoTierRateLimiter → TwoTierRateLimiter × Bool
allow_two_tier t_global t_new t_ip ip trl =
    let (global, allowed) = allow t_global trl.global_bucket in
    allow_global t_new t_ip ip (record trl { global_bucket = global }) allowed

-- One tick of `cleanupIPBuckets`: the buckets whose last refill lies more than half an hour back
-- are deleted.
unfoldable pub cleanup_ip_buckets : ℕ → TwoTierRateLimiter → TwoTierRateLimiter
cleanup_ip_buckets now trl = record trl {
  ip_buckets = keep_if (λ b. not (ltb (b.last_refill + half_hour) now)) trl.ip_buckets;
}

-- What the `select` of `Wait` receives: the context's end, or a tick with the clock at it.
pub data Wake : Type 0 where
  cancelled : Wake
  tick : (t_global t_new t_ip : ℕ) → Wake

pub data Waited : Type 0 where
  granted context_error still_waiting : Waited

unfoldable pub wait : Text → List Wake → TwoTierRateLimiter → TwoTierRateLimiter × Waited
wait ip [] trl = (trl, still_waiting)
wait ip (cancelled ∷ wakes) trl = (trl, context_error)
wait ip (tick t_global t_new t_ip ∷ wakes) trl =
    let (trl', allowed) = allow_two_tier t_global t_new t_ip ip trl in
    let later = wait ip wakes trl' in if allowed then (trl', granted) else later
