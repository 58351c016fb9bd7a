-- ===== src/RateLimit/Interleaved.antt =====
-- `TwoTierRateLimiter.Allow` of internal/ratelimit/limiter.go in the steps between its locks: calls
-- that run at the same time ask the global bucket, ask the bucket of their address, and give the
-- global token back, in any order. The lookup of a bucket and the call on it are one step.
pub mod Valid
pub mod Bound
pub mod PerIp
mod Examples
use perion_assignment.Common.{ℕ, zero, suc, Bool, true, false, Option, none, some, List, [], ◌∷◌}
use perion_assignment.Text.{Text}
use perion_assignment.Dict.{put}
use perion_assignment.RateLimit.{
  TokenBucket, TwoTierRateLimiter, allow, get_or_create_ip_bucket, return_global_token,
  cleanup_ip_buckets,
}

-- The limiter with the calls that run: the addresses of those that hold a global token, how many
-- are about to give theirs back, and the addresses of those that were admitted.
pub record Calls : Type 0 where
  pub limiter : TwoTierRateLimiter
  pub holding : List Text
  pub returning : ℕ
  pub admitted : List Text

abbrev pub idle : TwoTierRateLimiter → Calls
idle trl = record { limiter = trl; holding = []; returning = 0; admitted = [] }

-- A step: a new call asks the global bucket, the k-th call with a token asks its bucket, one that was
-- refused gives its token back, or the cleanup sweeps.
pub data Move : Type 0 where
  asks : (ip : Text) (now : ℕ) → Move
  settles : (k t_new t_ip : ℕ) → Move
  gives_back : Move
  sweeps : (now : ℕ) → Move

-- The answer of the global bucket.
abbrev pub on_global : Text → Calls → TokenBucket × Bool → Calls
on_global ip s (g, true) = record s {
  limiter = record s.limiter { global_bucket = g };
  holding = ip ∷ s.holding;
}
on_global ip s (g, false) = record s { limiter = record s.limiter { global_bucket = g } }

-- The answer of the bucket of an address, beside the calls that still hold a token.
abbrev pub on_bucket : Text → List Text → Calls → TwoTierRateLimiter → TokenBucket × Bool → Calls
on_bucket ip rest s trl (bucket, true) = record {
  limiter = record trl { ip_buckets = put ip bucket trl.ip_buckets };
  holding = rest;
  returning = s.returning;
  admitted = ip ∷ s.admitted;
}
on_bucket ip rest s trl (bucket, false) = record {
  limiter = record trl { ip_buckets = put ip bucket trl.ip_buckets };
  holding = rest;
  returning = suc s.returning;
  admitted = s.admitted;
}

abbrev pub asked : ℕ → Text → List Text → Calls → TwoTierRateLimiter × TokenBucket → Calls
asked t_ip ip rest s (trl, bucket) = on_bucket ip rest s trl (allow t_ip bucket)

unfoldable pub settle_one : (t_new t_ip : ℕ) → Calls → Option (Text × List Text) → Calls
settle_one t_new t_ip s none = s
settle_one t_new t_ip s (some (ip, rest)) =
    asked t_ip ip rest s (get_or_create_ip_bucket ip t_new s.limiter)

-- The k-th of a list, and the others.
abbrev pub picked_behind : Text → Option (Text × List Text) → Option (Text × List Text)
picked_behind ip none = none
picked_behind ip (some (found, rest)) = some (found, ip ∷ rest)

unfoldable pub pick : ℕ → List Text → Option (Text × List Text)
pick k [] = none
pick zero (ip ∷ rest) = some (ip, rest)
pick (suc k) (ip ∷ rest) = picked_behind ip (pick k rest)

unfoldable pub give_back : Calls → ℕ → Calls
give_back s zero = s
give_back s (suc n) = record s { limiter = return_global_token s.limiter; returning = n }

unfoldable pub move : Move → Calls → Calls
unfolding settle_one pick give_back
move (asks ip now) s = on_global ip s (allow now s.limiter.global_bucket)
move (settles k t_new t_ip) s = settle_one t_new t_ip s (pick k s.holding)
move gives_back s = give_back s s.returning
move (sweeps now) s = record s { limiter = cleanup_ip_buckets now s.limiter }

unfoldable pub run : List Move → Calls → Calls
run [] s = s
run (m ∷ moves) s = run moves (move m s)
