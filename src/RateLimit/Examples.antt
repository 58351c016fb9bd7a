-- ===== src/RateLimit/Examples.antt =====
-- Runs of internal/ratelimit/limiter.go, and the theorems on the limiter at them.
use perion_assignment.Common.{◌≡◌, refl, true, false, [], ◌∷◌, arith}
use perion_assignment.Text.{Text, codes, text_eq}
use perion_assignment.Dict.{get, put, keep_if}
use perion_assignment.Float.{
  scaled_seconds, int64_of, product, seconds, round, round_up, round_down, nearest,
}
use perion_assignment.RateLimit.{
  second, TwoTierRateLimiter, new_token_bucket, min_int64, tokens_to_add, refill, take_token, allow,
  new_two_tier, get_or_create_ip_bucket, return_global_token, allow_ip, allow_global,
  allow_two_tier, cleanup_ip_buckets, cancelled, tick, granted, context_error, still_waiting, wait,
}
use perion_assignment.RateLimit.TwoTier.Valid.{IsValid, new_two_tier-IsValid}
use perion_assignment.RateLimit.TwoTier.Answers.{Answers, allow_two_tier-Answers}

-- What the runs unfold.
limiter : Unit {0}
unfolding scaled_seconds int64_of product seconds round round_up round_down nearest text_eq get put
    keep_if new_token_bucket min_int64 tokens_to_add refill take_token allow new_two_tier
    get_or_create_ip_bucket return_global_token allow_ip allow_global allow_two_tier
    cleanup_ip_buckets wait
limiter = tt

abbrev ann : Text
ann = codes "10.0.0.1"

abbrev bob : Text
bob = codes "10.0.0.2"

-- Three tokens for all, and one for each address, with one more in a second.
abbrev start : TwoTierRateLimiter
start = new_two_tier 3 1 1 1 0

start-IsValid : IsValid 0 start
start-IsValid = new_two_tier-IsValid 3 1 1 1 0 (omega arith) (omega arith)

runs :
    ((allow_two_tier 1 1 1 ann start).1 ≡ true)
    × ((allow_two_tier 2 2 2 ann (allow_two_tier 1 1 1 ann start).0).1 ≡ false)
    × ((allow_two_tier 2 2 2 ann (allow_two_tier 1 1 1 ann start).0).0.global_bucket.tokens ≡ 2)
    × ((allow_two_tier 2 2 2 bob (allow_two_tier 1 1 1 ann start).0).1 ≡ true)
    × ((wait ann (tick 2 2 2 ∷ tick second second second ∷ []) (allow_two_tier 1 1 1 ann start).0).1
        ≡ still_waiting)
    × ((wait ann
          (tick 2 2 2 ∷ tick 2_000_000_000 2_000_000_000 2_000_000_000 ∷ [])
          (allow_two_tier 1 1 1 ann start).0).1
        ≡ granted)
    × ((wait ann (tick 2 2 2 ∷ cancelled ∷ []) (allow_two_tier 1 1 1 ann start).0).1
        ≡ context_error)
unfolding limiter
runs = (refl, refl, refl, refl, refl, refl, refl)

allow_two_tier-Answers_example : Answers 1 2 3 ann start (allow_two_tier 1 2 3 ann start)
allow_two_tier-Answers_example =
    allow_two_tier-Answers 0 1 2 3 ann start start-IsValid (omega arith)
