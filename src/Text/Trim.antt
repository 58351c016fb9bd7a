-- ===== src/Text/Trim.antt =====
-- `strings.TrimSpace`: what it keeps, and when it changes nothing.
use perion_assignment.Common.{
  ℕ, ◌≡◌, refl, ◌∙◌, Bool, true, [], ◌∷◌, arith, all, all-reverse, reverse,
}
use mathlib.Core.List.{reverse-reverse}
use perion_assignment.Text.{Text, drop_while, trim_space, is_space}
use perion_assignment.Text.While.{Stops, drop_while_of_Stops}

-- No white space at either end.
abbrev pub IsTrimmed : Text → Type 0
IsTrimmed s = Stops is_space s × Stops is_space (reverse s)

pub trim_space_of_IsTrimmed : (s : Text) → IsTrimmed s → trim_space s ≡ s
unfolding trim_space
trim_space_of_IsTrimmed s (front, back) =
    rw (drop_while_of_Stops is_space s front, drop_while_of_Stops is_space (reverse s) back)
      (reverse-reverse s)

all-drop_while : (p q : ℕ → Bool) (s : Text) → all q s ≡ true → all q (drop_while p s) ≡ true
unfolding drop_while
all-drop_while p q [] h = refl
all-drop_while p q (c ∷ s) h = ground (arith, all-drop_while p q s)

-- What holds of every code point holds of those that are left.
pub all-trim_space : (q : ℕ → Bool) (s : Text) → all q s ≡ true → all q (trim_space s) ≡ true
unfolding trim_space
all-trim_space q s h =
    let front = all-drop_while is_space q s h in
    let turned = all-reverse q (drop_while is_space s) ∙ front in
    all-reverse q (drop_while is_space (reverse (drop_while is_space s)))
    ∙ all-drop_while is_space q (reverse (drop_while is_space s)) turned
