-- ===== src/Text.antt =====
-- Go strings as sequences of code points, with the operations of the packages `strings` and
-- `unicode` that the program calls (a text is well-formed UTF-8).
pub mod Order
pub mod Duration
pub mod Split
pub mod While
pub mod Trim
use Prim.Native.Char.{code}
use Prim.Native.String.{String}
use perion_assignment.Common.{
  ℕ, zero, suc, ◌+◌, ◌-◌, ◌/◌, ◌%◌, ◌≡◌, refl, ap, ◌↔◌, Bool, true, false, not, ◌&&◌, ◌||◌, List,
  [], ◌∷◌, ◌++◌, reverse, map, arith, ltb, leb, ◌==◌, if◌then◌else◌, Bool-cases, sum_of, ==_iff,
  inl, inr, all,
}

abbrev pub Text : Type 0
Text = List ℕ

-- A literal of the source.
abbrev pub codes : String → Text
codes String.[] = []
codes (String.◌∷◌ c s) = code c ∷ codes s

unfoldable pub text_eq : Text → Text → Bool
text_eq [] [] = true
text_eq [] (y ∷ ys) = false
text_eq (x ∷ xs) [] = false
text_eq (x ∷ xs) (y ∷ ys) = (x == y) && text_eq xs ys

-- `<` on Go strings: for well-formed UTF-8 the order of the bytes is that of the code points.
unfoldable pub text_lt : Text → Text → Bool
text_lt xs [] = false
text_lt [] (y ∷ ys) = true
text_lt (x ∷ xs) (y ∷ ys) = ltb x y || ((x == y) && text_lt xs ys)

-- The number of bytes of a code point, and of a text (`len`).
unfoldable pub rune_len : ℕ → ℕ
rune_len c = if ltb c 0x80 then 1 else if ltb c 0x800 then 2 else if ltb c 0x10000 then 3 else 4

unfoldable pub byte_len : Text → ℕ
unfolding rune_len
byte_len s = sum_of rune_len s

-- `unicode.IsSpace`.
unfoldable pub is_space : ℕ → Bool
is_space c =
    (leb 9 c && leb c 13)
    || c == 0x20
    || c == 0x85
    || c == 0xa0
    || c == 0x1680
    || (leb 0x2000 c && leb c 0x200a)
    || c == 0x2028
    || c == 0x2029
    || c == 0x202f
    || c == 0x205f
    || c == 0x3000

-- The rest of a text behind the longest prefix whose code points pass the test.
unfoldable pub drop_while : (ℕ → Bool) → Text → Text
drop_while p [] = []
drop_while p (c ∷ s) = if p c then drop_while p s else c ∷ s

unfoldable pub take_while : (ℕ → Bool) → Text → Text
take_while p [] = []
take_while p (c ∷ s) = if p c then c ∷ take_while p s else []

-- `strings.TrimSpace`.
unfoldable pub trim_space : Text → Text
trim_space s = reverse (drop_while is_space (reverse (drop_while is_space s)))

-- `strings.HasPrefix`, the prefix first.
unfoldable pub has_prefix : Text → Text → Bool
has_prefix [] s = true
has_prefix (x ∷ xs) [] = false
has_prefix (x ∷ xs) (y ∷ ys) = (x == y) && has_prefix xs ys

-- The text behind as many code points as the first text has.
unfoldable pub drop_as : Text → Text → Text
drop_as [] s = s
drop_as (x ∷ xs) [] = []
drop_as (x ∷ xs) (y ∷ ys) = drop_as xs ys

-- `strings.TrimPrefix` and `strings.TrimSuffix`.
unfoldable pub trim_prefix : Text → Text → Text
unfolding has_prefix drop_as
trim_prefix p s = if has_prefix p s then drop_as p s else s

unfoldable pub trim_suffix : Text → Text → Text
unfolding trim_prefix
trim_suffix p s = reverse (trim_prefix (reverse p) (reverse s))

-- `strings.Contains`, the part first.
unfoldable pub contains : Text → Text → Bool
unfolding has_prefix
contains p [] = has_prefix p []
contains p (c ∷ s) = has_prefix p (c ∷ s) || contains p s

-- A text put at the front of the first part.
abbrev pub onto_head : ℕ → List Text → List Text
onto_head c [] = (c ∷ []) ∷ []
onto_head c (part ∷ parts) = (c ∷ part) ∷ parts

-- `strings.Split` at a separator of one code point.
unfoldable pub split : ℕ → Text → List Text
split sep [] = [] ∷ []
split sep (c ∷ s) = let rest = split sep s in if c == sep then [] ∷ rest else onto_head c rest

-- `strings.Split(s, sep)[0]`.
abbrev pub first_part : List Text → Text
first_part [] = []
first_part (part ∷ parts) = part

-- `%d` of a number that is not negative; `fuel` bounds the number of digits.
abbrev pub digits : (fuel : ℕ) → ℕ → Text → Text
digits zero n s = s
digits (suc fuel) n s =
    let rest = digits fuel (n / 10) ((48 + n % 10) ∷ s) in
    if ltb n 10 then (48 + n % 10) ∷ s else rest

unfoldable pub decimal : ℕ → Text
decimal n = digits (suc n) n []

-- The case mappings of `unicode` above ASCII, whose tables are no part of the program.
pub record CaseTable : Type 0 where
  pub lower_wide : ℕ → ℕ
  pub upper_wide : ℕ → ℕ

unfoldable pub lower_rune : CaseTable → ℕ → ℕ
lower_rune table c =
    if ltb c 0x80 then (if leb b'A' c && leb c b'Z' then c + 32 else c) else table.lower_wide c

unfoldable pub upper_rune : CaseTable → ℕ → ℕ
upper_rune table c =
    if ltb c 0x80 then (if leb b'a' c && leb c b'z' then c - 32 else c) else table.upper_wide c

-- `strings.ToLower` and `strings.ToUpper`.
unfoldable pub to_lower : CaseTable → Text → Text
unfolding lower_rune
to_lower table = map (lower_rune table)

unfoldable pub to_upper : CaseTable → Text → Text
unfolding upper_rune
to_upper table = map (upper_rune table)

pub text_eq_iff : (s t : Text) → (text_eq s t ≡ true) ↔ (s ≡ t)
unfolding text_eq
text_eq_iff [] [] = (λ _. refl, λ _. refl)
text_eq_iff [] (y ∷ ys) = (λ h. cc, λ h. cc)
text_eq_iff (x ∷ xs) [] = (λ h. cc, λ h. cc)
text_eq_iff (x ∷ xs) (y ∷ ys) = ground (arith, text_eq_iff xs ys)

pub text_eq_refl : (s : Text) → text_eq s s ≡ true
text_eq_refl s = (text_eq_iff s s).1 refl
