-- ===== src/Float.antt =====
-- The float64 arithmetic of `refill` in internal/ratelimit/limiter.go, for numbers that are not
-- negative and lie in the range of normal ones: each operation gives the value with a mantissa of 53
-- bits that is nearest to the exact one, and of two the even one.
pub mod Bound
mod Examples
use perion_assignment.Common.{
  ℕ, zero, suc, ◌+◌, ◌*◌, ◌/◌, ◌%◌, ◌^◌, Bool, true, false, if◌then◌else◌, ltb, leb, ◌==◌,
}

-- A value as a fraction; the denominator of a float64 is a power of two.
pub record Ratio : Type 0 where
  pub num : ℕ
  pub den : ℕ

-- 2 ^ 52 and 2 ^ 53.
abbrev pub low : ℕ
low = 4_503_599_627_370_496

abbrev pub high : ℕ
high = 9_007_199_254_740_992

-- The integer nearest to a fraction, the even one of two.
unfoldable pub nearest : ℕ → ℕ → ℕ
nearest n d =
    let q = n / d in
    let r = n % d in if ltb (2 * r) d then q else if ltb d (2 * r) then q + 1 else q + q % 2

-- The fraction is doubled until its integer part has 53 bits.
unfoldable pub round_up : (fuel n d down : ℕ) → Ratio
round_up zero n d down = record { num = nearest n d; den = down }
round_up (suc fuel) n d down = elim (ltb n (low * d)) [
  | true ↦ round_up fuel (2 * n) d (2 * down)
  | false ↦ record { num = nearest n d; den = down }
]

-- The fraction is halved until its integer part has no more than 53 bits.
unfoldable pub round_down : (fuel n d up : ℕ) → Ratio
round_down zero n d up = record { num = nearest n d * up; den = 1 }
round_down (suc fuel) n d up = elim (leb (high * d) n) [
  | true ↦ round_down fuel n (2 * d) (2 * up)
  | false ↦ record { num = nearest n d * up; den = 1 }
]

-- The float64 nearest to `n / d`.
unfoldable pub round : ℕ → ℕ → Ratio
round n d =
    if n == 0
    then record { num = 0; den = 1 }
    else if ltb n (low * d)
    then round_up (d + 52) n d 1
    else round_down n n d 1

-- `time.Second`.
abbrev pub second : ℕ
second = 1_000_000_000

-- `Duration.Seconds`: the seconds, and a quotient for the nanoseconds.
unfoldable pub seconds : ℕ → Ratio
seconds elapsed =
    let part = round (elapsed % second) second in
    round (elapsed / second * part.den + part.num) part.den

-- The product of two values.
unfoldable pub product : Ratio → Ratio → Ratio
product x y = round (x.num * y.num) (x.den * y.den)

-- `int64(x)`: a value of 2 ^ 63 or more becomes the least int64 on amd64, which stands as 0 here,
-- since `refill` takes neither for a number of tokens to add.
unfoldable pub int64_of : Ratio → ℕ
int64_of x = let whole = x.num / x.den in if ltb whole (2 ^ 63) then whole else 0

-- `int64(d.Seconds() * float64(rate))`.
unfoldable pub scaled_seconds : (elapsed rate : ℕ) → ℕ
scaled_seconds elapsed rate = int64_of (product (seconds elapsed) (round rate 1))
