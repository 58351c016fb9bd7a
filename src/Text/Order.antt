-- ===== src/Text/Order.antt =====
-- The order of texts is a strict total order.
use perion_assignment.Common.{◌≡◌, refl, true, false, [], ◌∷◌, arith}
use perion_assignment.Text.{Text, text_lt}

pub text_lt_irrefl : (s : Text) → text_lt s s ≡ false
unfolding text_lt
text_lt_irrefl [] = refl
text_lt_irrefl (x ∷ s) = ground (arith, text_lt_irrefl s)

pub text_lt_trans : (s t u : Text) → text_lt s t ≡ true → text_lt t u ≡ true → text_lt s u ≡ true
unfolding text_lt
text_lt_trans s [] u h k = cc
text_lt_trans s (y ∷ t) [] h k = cc
text_lt_trans [] (y ∷ t) (z ∷ u) h k = refl
text_lt_trans (x ∷ s) (y ∷ t) (z ∷ u) h k = ground (arith, text_lt_trans s t u)

pub text_lt_total : (s t : Text) → text_lt s t ≡ false → text_lt t s ≡ false → s ≡ t
unfolding text_lt
text_lt_total [] [] h k = refl
text_lt_total [] (y ∷ t) h k = cc
text_lt_total (x ∷ s) [] h k = cc
text_lt_total (x ∷ s) (y ∷ t) h k = ground (arith, text_lt_total s t)
