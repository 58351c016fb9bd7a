-- ===== src/Float/Examples.antt =====
-- Products in float64 at concrete times.
use perion_assignment.Common.{◌≡◌, refl}
use perion_assignment.Float.{
  scaled_seconds, int64_of, product, seconds, round, round_up, round_down, nearest,
}

-- What the runs unfold.
products : Unit {0}
unfolding scaled_seconds int64_of product seconds round round_up round_down nearest
products = tt

-- 0.29 times 100 is less than 29 in float64.
runs :
    (scaled_seconds 1_000_000_000 10 ≡ 10)
    × (scaled_seconds 300_000_000 10 ≡ 3)
    × (scaled_seconds 290_000_000 100 ≡ 28)
    × (scaled_seconds 999_999_999 1 ≡ 0)
unfolding products
runs = (refl, refl, refl, refl)
