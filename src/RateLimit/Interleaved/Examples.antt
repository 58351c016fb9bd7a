-- ===== src/RateLimit/Interleaved/Examples.antt =====
-- Two calls of one address that run at the same time, and the theorems on the limiter there.
use perion_assignment.Common.{◌+◌, ◌-◌, ◌*◌, ◌≤◌, ◌≡◌, refl, List, [], ◌∷◌, length, arith}
use perion_assignment.Text.{Text, codes, text_eq}
use perion_assignment.Dict.{get, put}
use perion_assignment.Float.{
  scaled_seconds, int64_of, product, seconds, round, round_up, round_down, nearest,
}
use perion_assignment.RateLimit.{
  second, TwoTierRateLimiter, new_token_bucket, min_int64, tokens_to_add, refill, take_token, allow,
  new_two_tier, get_or_create_ip_bucket, return_global_token, allow_ip, allow_global,
  allow_two_tier, cleanup_ip_buckets,
}
use perion_assignment.RateLimit.Interleaved.{
  idle, Move, asks, settles, gives_back, sweeps, settle_one, pick, give_back, move, run,
}
use perion_assignment.RateLimit.Interleaved.Bound.{run-bound}
use perion_assignment.RateLimit.Interleaved.PerIp.{times_in, run_for-bound}

-- What the runs unfold.
steps : Unit {0}
unfolding scaled_seconds int64_of product seconds round round_up round_down nearest text_eq get put
    new_token_bucket min_int64 tokens_to_add refill take_token allow new_two_tier
    get_or_create_ip_bucket return_global_token allow_ip allow_global allow_two_tier settle_one pick
    give_back move run cleanup_ip_buckets
steps = tt

abbrev ann : Text
ann = codes "10.0.0.1"

abbrev bob : Text
bob = codes "10.0.0.2"

-- Two tokens for all, one for each address.
abbrev fresh : TwoTierRateLimiter
fresh = new_two_tier 2 1 1 1 0

-- Both calls of one address take a global token; while the second of them waits to give its token
-- back, a call of another address is turned away.
abbrev overlapping : List Move
overlapping =
    asks ann 1
    ∷ asks ann 2
    ∷ settles 1 3 4
    ∷ settles 0 5 6
    ∷ asks bob 7
    ∷ gives_back
    ∷ asks bob 8
    ∷ settles 0 9 10
    ∷ sweeps 11
    ∷ []

runs :
    ((run overlapping (idle fresh)).admitted ≡ bob ∷ ann ∷ [])
    × ((run overlapping (idle fresh)).limiter.global_bucket.tokens ≡ 0)
    × ((run (asks ann 1 ∷ asks ann 2 ∷ asks bob 3 ∷ []) (idle fresh)).holding ≡ ann ∷ ann ∷ [])
unfolding steps
runs = (refl, refl, refl)

run-bound_example :
    length (run overlapping (idle (new_two_tier 2 1 1 1 0))).admitted * second
    ≤ 2 * second + (second - 0) * 1
run-bound_example = run-bound 2 1 1 1 0 overlapping second (omega arith) (omega arith) (
  omega arith,
  (
    omega arith,
    (
      (omega arith, omega arith),
      (
        (omega arith, omega arith),
        (
          omega arith,
          (tt, (omega arith, ((omega arith, omega arith), (omega arith, omega arith)))),
        ),
      ),
    ),
  ),
)

run_for-bound_example :
    times_in ann (run overlapping (idle (new_two_tier 2 1 1 1 0))).admitted * second
    ≤ 1 * second + (second - 0) * 1
run_for-bound_example =
    run_for-bound 2 1 1 1 0 ann overlapping second (omega arith) (omega arith) (omega arith) (
      omega arith,
      (
        omega arith,
        (
          (omega arith, omega arith),
          (
            (omega arith, omega arith),
            (
              omega arith,
              (tt, (omega arith, ((omega arith, omega arith), (omega arith, omega arith)))),
            ),
          ),
        ),
      ),
    )
