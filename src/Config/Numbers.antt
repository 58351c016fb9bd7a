-- ===== src/Config/Numbers.antt =====
-- The numbers of internal/config/config.go: what is printed is read back, and durations.
use perion_assignment.Common.{
  ℕ, zero, suc, ◌+◌, ◌-◌, ◌*◌, ◌/◌, ◌%◌, ◌^◌, ◌≤◌, ◌<◌, ◌≡◌, refl, ◌∙◌, ap, Bool, true, false, ◌&&◌,
  none, some, [], ◌∷◌, if◌then◌else◌, ltb, leb, ◌==◌, ℤ, pos, neg, arith, ltb→lt, Bool-cases, inl,
  inr,
}
use perion_assignment.Float.{second}
use perion_assignment.Text.{Text, decimal, digits}
use perion_assignment.Config.{
  scan, in_range, atoi, in_seconds, number_or, get_int_env, get_duration_env,
}

is_digit : (d : ℕ) → d < 10 → (leb b'0' (48 + d) && leb (48 + d) b'9') ≡ true
is_digit d h = ground arith

scan-digit : (d acc : ℕ) (s : Text) → d < 10 → scan ((48 + d) ∷ s) acc ≡ scan s (acc * 10 + d)
unfolding scan
scan-digit d acc s h =
    let e : acc * 10 + (48 + d - b'0') ≡ acc * 10 + d = omega arith in
    rw (is_digit d h) (ap (scan s) e)

ltb-false : (a b : ℕ) → ltb a b ≡ false → b ≤ a
ltb-false a b h = ground arith

shorter : (n fuel : ℕ) → n < suc fuel → ltb n 10 ≡ false → n / 10 < fuel
shorter n fuel h more = omega (arith, ltb-false n 10 more)

-- Reading what has been printed gives the number, with what stands behind it.
scan-digits : (fuel n : ℕ) (s : Text) → n < fuel → scan (digits fuel n s) 0 ≡ scan s n
scan-digits zero n s h = absurd (omega arith)
scan-digits (suc fuel) n s h = elim (Bool-cases (ltb n 10)) [
  | inl one ↦
      let e : 0 * 10 + n % 10 ≡ n = omega (arith, ltb→lt n 10 one) in
      rw one (scan-digit (n % 10) 0 s (omega arith) ∙ ap (scan s) e)
  | inr more ↦
      let e : n / 10 * 10 + n % 10 ≡ n = omega arith in
      rw more (
        scan-digits fuel (n / 10) ((48 + n % 10) ∷ s) (shorter n fuel h more)
        ∙ scan-digit (n % 10) (n / 10) s (omega arith)
        ∙ ap (scan s) e)
]

-- The first character of a printed number is a digit.
digits-first :
    (fuel n : ℕ) (s : Text)
    → n < fuel
    → (d : ℕ) × (rest : Text) × (d < 10) × (digits fuel n s ≡ (48 + d) ∷ rest)
digits-first zero n s h = absurd (omega arith)
digits-first (suc fuel) n s h = elim (Bool-cases (ltb n 10)) [
  | inl one ↦ rw one (n % 10, s, omega arith, refl)
  | inr more ↦ rw more (digits-first fuel (n / 10) ((48 + n % 10) ∷ s) (shorter n fuel h more))
]

atoi-digit :
    (d : ℕ) (s : Text) → d < 10 → atoi ((48 + d) ∷ s) ≡ in_range false (scan ((48 + d) ∷ s) 0)
unfolding atoi
atoi-digit d s h = rw (no_minus d, no_plus d) refl
  where
    no_minus : (d : ℕ) → ((48 + d) == b'-') ≡ false
    no_minus d = ground arith

    no_plus : (d : ℕ) → ((48 + d) == b'+') ≡ false
    no_plus d = ground arith

-- The decimal digits of a number below 2 ^ 63 are read as this number, and those of another number
-- are refused.
pub atoi-decimal : (n : ℕ) → atoi (decimal n) ≡ (if ltb n (2 ^ 63) then some (pos n) else none)
unfolding decimal
atoi-decimal n =
    let (d, rest, small, first) = digits-first (suc n) n [] (omega arith) in
    let start : atoi (digits (suc n) n []) ≡ in_range false (scan (digits (suc n) n []) 0) =
      rw first (atoi-digit d rest small) in
    start ∙ ap (in_range false) (scan-digits (suc n) n [] (omega arith)) ∙ (unfold scan in refl)

ltb-true : (a b : ℕ) → a < b → ltb a b ≡ true
ltb-true a b h = ground arith

-- A variable that holds the digits of a number gives this number of seconds, if they are less than
-- 2 ^ 63 nanoseconds; from there to 2 ^ 64 nanoseconds the duration is negative.
pub get_duration_env_lem :
    (environment : Text → Text) (key : Text) (default : ℤ) (n : ℕ)
    → environment key ≡ decimal n
    → n * second < 2 ^ 64
    → get_duration_env environment key default
      ≡ (if ltb (n * second) (2 ^ 63) then pos (n * second) else neg (2 ^ 64 - n * second))
unfolding get_duration_env in_seconds
get_duration_env_lem environment key default n h fits =
    let read : ltb n (2 ^ 63) ≡ true = ltb-true n (2 ^ 63) (omega arith) in
    rw (h, atoi-decimal n, read, whole (n * second) fits) refl
  where
    whole : (m : ℕ) → m < 2 ^ 64 → m % 2 ^ 64 ≡ m
    whole m h = omega arith

-- An integer variable that holds the digits of a number has this number as its value if it is less
-- than 2 ^ 63, and its default otherwise.
pub get_int_env-decimal :
    (environment : Text → Text) (key : Text) (default : ℤ) (n : ℕ)
    → environment key ≡ decimal n
    → get_int_env environment key default ≡ (if ltb n (2 ^ 63) then pos n else default)
unfolding get_int_env
get_int_env-decimal environment key default n h =
    rw (h, atoi-decimal n) (or_default_if (ltb n (2 ^ 63)))
  where
    or_default_if :
        (b : Bool)
        → number_or (λ i. i) default (if b then some (pos n) else none)
          ≡ (if b then pos n else default)
    or_default_if true = refl
    or_default_if false = refl
