-- ===== src/Text/Duration.antt =====
-- How the package time writes a duration, a number of nanoseconds.
use perion_assignment.Common.{
  ℕ, zero, suc, ◌+◌, ◌/◌, ◌%◌, ◌^◌, [], ◌∷◌, ◌++◌, if◌then◌else◌, ltb, ◌==◌, ℤ, pos, negsuc, ◌≡◌,
  refl,
}
use perion_assignment.Text.{Text, codes, decimal}

-- The digits behind the point, without the zeros at the end: `v` of `10 ^ width`.
unfoldable pub fraction_digits : (width v : ℕ) → Text
fraction_digits zero v = []
fraction_digits (suc width) v =
    let rest = fraction_digits width (v % 10 ^ width) in
    if v == 0 then [] else (48 + v / 10 ^ width) ∷ rest

unfoldable pub fraction : (width v : ℕ) → Text
unfolding fraction_digits
fraction width v = if v == 0 then [] else codes "." ++ fraction_digits width v

-- Hours and minutes, where there are any, before the seconds.
abbrev long_text : (minutes seconds nanoseconds : ℕ) → Text
long_text minutes seconds nanoseconds =
    (if minutes / 60 == 0 then [] else decimal (minutes / 60) ++ codes "h")
    ++ (if minutes == 0 then [] else decimal (minutes % 60) ++ codes "m")
    ++ decimal seconds
    ++ fraction 9 nanoseconds
    ++ codes "s"

abbrev magnitude_text : ℕ → Text
magnitude_text n =
    if n == 0
    then codes "0s"
    else if ltb n 1000
    then decimal n ++ codes "ns"
    else if ltb n 1_000_000
    then decimal (n / 1000) ++ fraction 3 (n % 1000) ++ 181 ∷ codes "s"
    else if ltb n 1_000_000_000
    then decimal (n / 1_000_000) ++ fraction 6 (n % 1_000_000) ++ codes "ms"
    else long_text (n / 60_000_000_000) (n / 1_000_000_000 % 60) (n % 1_000_000_000)

unfoldable pub duration_text : ℤ → Text
duration_text (pos n) = magnitude_text n
duration_text (negsuc n) = codes "-" ++ magnitude_text (suc n)

runs :
    (duration_text (pos 0) ≡ codes "0s")
    × (duration_text (negsuc 1_499_999_999) ≡ codes "-1.5s")
    × (duration_text (negsuc 3_723_000_000_004) ≡ codes "-1h2m3.000000005s")
    × (duration_text (pos 1_050_000) ≡ codes "1.05ms")
unfolding duration_text fraction decimal
runs = (refl, refl, refl, refl)
