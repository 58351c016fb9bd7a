-- ===== src/Float/Bound.antt =====
-- How far the float64 product of a time and a rate lies above the exact one.
use perion_assignment.Common.{
  ℕ, zero, suc, ◌+◌, ◌*◌, ◌/◌, ◌%◌, ◌^◌, ◌≤◌, ◌<◌, ◌≡◌, refl, ap, false, ltb, leb, ◌==◌, arith,
  Bool-cases, inl, inr, leb→le,
}
use native.Mathlib.Nat.{
  mul-le-mul, mul-le-mul_right, pow-suc, mod-add-div, le_of_mul-le-mul_right, div-mul-le_self,
  mul-pos,
}
use perion_assignment.Float.{
  Ratio, low, high, nearest, round_up, round_down, round, second, seconds, product, int64_of,
  scaled_seconds,
}

runs :
    (scaled_seconds 1_000_000_000 10 ≡ 10)
    × (scaled_seconds 290_000_000 100 ≡ 28)
    × (scaled_seconds 999_999_999 10 ≡ 9)
unfolding scaled_seconds int64_of product seconds round round_up round_down nearest
runs = (refl, refl, refl)

nearest-le : (n d : ℕ) → 0 < d → 2 * (nearest n d * d) ≤ 2 * n + d
unfolding nearest
nearest-le n d pos =
    let whole = mod-add-div n d in
    let above = mul-le-mul_right {m = n / d + n / d % 2} {n = n / d + 1} d (omega arith) in
    ground (arith, whole, above)

-- A number with 53 bits is at most one part in 2 ^ 53 above what it stands for.
nearest_near : (n d : ℕ) → 0 < d → low * d ≤ n → nearest n d * d * high ≤ n * (high + 1)
nearest_near n d pos big = omega (arith, nearest-le n d pos)

-- A fraction at most one part in 2 ^ 53 above `n / d`.
abbrev pub IsNear : (n d : ℕ) → Ratio → Type 0
IsNear n d r = (0 < r.den) × (r.num * d * high ≤ n * r.den * (high + 1))

nearest-IsNear :
    (n d down : ℕ) → 0 < d → low * d ≤ n → nearest n d * (d * down) * high ≤ n * down * (high + 1)
nearest-IsNear n d down pos big = omega (arith, mul-le-mul_right down (nearest_near n d pos big))

round_up-IsNear :
    (fuel n d down : ℕ)
    → 0 < d
    → 0 < down
    → low * d ≤ n * 2 ^ fuel
    → IsNear n (d * down) (round_up fuel n d down)
unfolding round_up
round_up-IsNear zero n d down pos pos' big = (pos', nearest-IsNear n d down pos (omega arith))
round_up-IsNear (suc fuel) n d down pos pos' big = elim (Bool-cases (ltb n (low * d))) [
  | inl small ↦
      let enough : low * d ≤ 2 * n * 2 ^ fuel =
        omega (arith, ap (λ (t : ℕ). n * t) (pow-suc 2 fuel)) in
      let (den, near) = round_up-IsNear fuel (2 * n) d (2 * down) pos (omega arith) enough in
      rw (small, round_up) (den, omega arith)
  | inr done ↦
      let big_enough : low * d ≤ n = not_less n (low * d) done in
      rw (done, round_up) (pos', nearest-IsNear n d down pos big_enough)
]
  where
    not_less : (a b : ℕ) → ltb a b ≡ false → b ≤ a
    not_less a b h = ground arith

round_down-IsNear :
    (fuel n d up : ℕ)
    → 0 < d
    → low * d ≤ n
    → (0 < (round_down fuel n d up).den)
      × ((round_down fuel n d up).num * d * high
          ≤ n * up * (round_down fuel n d up).den * (high + 1))
unfolding round_down
round_down-IsNear zero n d up pos big =
    (omega arith, omega (arith, mul-le-mul_right up (nearest_near n d pos big)))
round_down-IsNear (suc fuel) n d up pos big = elim (Bool-cases (leb (high * d) n)) [
  | inl large ↦
      let (den, near) =
        round_down-IsNear fuel n (2 * d) (2 * up) (omega arith)
          (omega (arith, leb→le (high * d) n large)) in
      rw (large, round_down) (den, omega arith)
  | inr done ↦
      rw (done, round_down)
        (omega arith, omega (arith, mul-le-mul_right up (nearest_near n d pos big)))
]

pow_above : (k : ℕ) → low * (k + 1) ≤ 2 ^ (k + 52)
pow_above zero = omega arith
pow_above (suc k) =
    let e : suc k + 52 ≡ suc (k + 52) = omega arith in
    omega (arith, pow_above k, ap (λ (t : ℕ). 2 ^ t) e, pow-suc 2 (k + 52))

-- A rounded fraction is at most one part in 2 ^ 53 above the exact one.
pub round-IsNear : (n d : ℕ) → 0 < d → IsNear n d (round n d)
unfolding round
round-IsNear n d pos = elim (Bool-cases (n == 0)) [
  | inl none_given ↦ rw none_given (omega arith, omega arith)
  | inr given ↦ elim (Bool-cases (ltb n (low * d))) [
    | inl small ↦
        let some_given : 1 ≤ n = not_zero n given in
        let enough : low * d ≤ n * 2 ^ (d + 52) =
          omega (arith, pow_above d, mul-le-mul_right (2 ^ (d + 52)) some_given) in
        let (den, near) = round_up-IsNear (d + 52) n d 1 pos (omega arith) enough in
        rw (given, small) (den, omega arith)
    | inr large ↦
        let (den, near) = round_down-IsNear n n d 1 pos (not_less n (low * d) large) in
        rw (given, large) (den, omega arith)
  ]
]
  where
    not_zero : (m : ℕ) → (m == 0) ≡ false → 1 ≤ m
    not_zero m h = ground arith

    not_less : (a b : ℕ) → ltb a b ≡ false → b ≤ a
    not_less a b h = ground arith

abbrev more : ℕ
more = 9_007_199_254_740_993

-- The errors of the quotient and of the sum add up.
seconds_chain :
    (whole part fn fd sn sd : ℕ)
    → 0 < fd
    → fn * second * high ≤ part * fd * more
    → sn * fd * high ≤ (whole * fd + fn) * sd * more
    → sn * second * high * high ≤ (whole * second + part) * sd * more * more
seconds_chain whole part fn fd sn sd pos f s =
    let sum : (whole * fd + fn) * second * high ≤ (whole * second + part) * fd * more =
      omega arith in
    le_of_mul-le-mul_right {k = fd}
      (omega (arith, mul-le-mul_right (sd * more) sum, mul-le-mul_right (second * high) s)) pos

-- And those of the seconds, of the rate and of the product.
product_chain :
    (elapsed rate sn sd rn rd pn pd : ℕ)
    → 0 < sd * rd
    → sn * second * high * high ≤ elapsed * sd * more * more
    → rn * high ≤ rate * rd * more
    → pn * (sd * rd) * high ≤ sn * rn * pd * more
    → pn * second * high * high * high * high ≤ elapsed * rate * pd * more * more * more * more
product_chain elapsed rate sn sd rn rd pn pd pos s r p =
    le_of_mul-le-mul_right {k = sd * rd}
      (omega (
        arith,
        mul-le-mul_right (pd * more) (mul-le-mul s r),
        mul-le-mul_right (second * high * high * high) p,
      ))
      pos

seconds-near :
    (elapsed : ℕ)
    → (0 < (seconds elapsed).den)
      × ((seconds elapsed).num * second * high * high
          ≤ elapsed * (seconds elapsed).den * more * more)
unfolding seconds
seconds-near elapsed =
    let f = round (elapsed % second) second in
    let (f_den, f_near) = round-IsNear (elapsed % second) second (omega arith) in
    let (s_den, s_near) = round-IsNear (elapsed / second * f.den + f.num) f.den f_den in
    let e : elapsed / second * second + elapsed % second ≡ elapsed = omega arith in
    (
      s_den,
      rw e at
          (seconds_chain (elapsed / second) (elapsed % second) f.num f.den _ _ f_den f_near s_near),
    )

whole_chain :
    (x n d : ℕ)
    → 0 < d
    → n * second * high * high * high * high ≤ x * d * more * more * more * more
    → n / d * second * high * high * high * high ≤ x * more * more * more * more
whole_chain x n d pos h =
    le_of_mul-le-mul_right {k = d}
      (omega (arith, mul-le-mul_right (second * high * high * high * high) (div-mul-le_self n d)))
      pos

int64_of-le : (x : Ratio) → int64_of x ≤ x.num / x.den
unfolding int64_of
int64_of-le x = ground arith

-- As long as the exact product is two million tokens at most, the product of the seconds and the rate
-- in float64, truncated, is no more than the exact one.
pub scaled_seconds-le :
    (elapsed rate : ℕ)
    → elapsed * rate ≤ 2_000_000 * second
    → scaled_seconds elapsed rate * second ≤ elapsed * rate
unfolding scaled_seconds product
scaled_seconds-le elapsed rate small =
    let s = seconds elapsed in
    let r = round rate 1 in
    let p = round (s.num * r.num) (s.den * r.den) in
    let (s_den, s_near) = seconds-near elapsed in
    let (r_den, r_near) = round-IsNear rate 1 (omega arith) in
    let both = mul-pos s_den r_den in
    let (p_den, p_near) = round-IsNear (s.num * r.num) (s.den * r.den) both in
    let near =
      product_chain elapsed rate s.num s.den r.num r.den p.num p.den both s_near (omega arith)
        p_near in
    omega (arith, int64_of-le p, whole_chain (elapsed * rate) p.num p.den p_den near)
