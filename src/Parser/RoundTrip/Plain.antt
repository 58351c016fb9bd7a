-- ===== src/Parser/RoundTrip/Plain.antt =====
-- The code points of a domain, and texts without white space at their ends.
use mathlib.Core.List.{reverse-append, reverse-reverse}
use perion_assignment.Common.{
  ℕ, ◌≡◌, refl, ap, sym, ◌∙◌, Bool, true, not, ◌&&◌, List, [], ◌∷◌, ◌++◌, arith, all, inl, inr, ◌≢◌,
  ◌⊎◌, All, ◌==◌, all-append, all-reverse, reverse, ◌≤◌, length,
}
use perion_assignment.Text.{Text, is_space}
use perion_assignment.Text.Split.{join}
use perion_assignment.Text.While.{Stops, Stops-append}
use perion_assignment.Text.Trim.{IsTrimmed}
use perion_assignment.Parser.{is_field_char, is_re_space, is_label_char, is_alnum}
use perion_assignment.Parser.Domain.{IsLabel}
use perion_assignment.Parser.Domain.Valid.{IsDomain, join_dotted}

-- The code points of a domain, which are neither white space nor punctuation of the format.
abbrev pub is_plain : ℕ → Bool
is_plain c = is_field_char c && not (is_space c) && not (c == b'#')

label_char_plain : (c : ℕ) → is_label_char c ≡ true → is_plain c ≡ true
unfolding is_label_char is_alnum is_field_char is_re_space is_space
label_char_plain c h = ground arith

labels_plain : (s : Text) → all is_label_char s ≡ true → all is_plain s ≡ true
labels_plain [] h = refl
labels_plain (c ∷ s) h = ground (arith, label_char_plain c, labels_plain s)

alnum_plain : (c : ℕ) → is_alnum c ≡ true → is_plain c ≡ true
alnum_plain c h = label_char_plain c (unfold is_label_char in ground arith)

IsLabel-plain : (s : Text) → IsLabel s → (s ≢ []) × (all is_plain s ≡ true)
IsLabel-plain s (inl (c, e, h)) = (λ k. cc, rw e (ground (arith, alnum_plain c h)))
IsLabel-plain s (inr (c, d, middle, e, first, last, inside, short)) = (
  (λ k. cc),
  rw (e, all-append is_plain middle (d ∷ []))
      (ground (arith, alnum_plain c first, alnum_plain d last, labels_plain middle inside)),
)

dot_plain : is_plain b'.' ≡ true
unfolding is_field_char is_re_space is_space
dot_plain = refl

join-plain : (labels : List Text) → All IsLabel labels → all is_plain (join b'.' labels) ≡ true
unfolding join
join-plain [] h = refl
join-plain (s ∷ []) h = (IsLabel-plain s h.0).1
join-plain (s ∷ next ∷ labels) h =
    all-append is_plain s (b'.' ∷ join b'.' (next ∷ labels))
    ∙ ground (arith, IsLabel-plain s h.0, join-plain (next ∷ labels) h.1, dot_plain)

pub append-ne-nil : (s t : Text) → t ≢ [] → s ++ t ≢ []
append-ne-nil [] t h = h
append-ne-nil (c ∷ s) t h = λ e. cc

pub IsDomain-plain : (s : Text) → IsDomain s → (s ≢ []) × (all is_plain s ≡ true)
IsDomain-plain s (labels, n, good, form, short) =
    let inner = join-plain labels good in (nonempty labels n good form, chars form inner)
  where
    chars :
        (s ≡ join b'.' labels) ⊎ (s ≡ join b'.' labels ++ b'.' ∷ [])
        → all is_plain (join b'.' labels) ≡ true
        → all is_plain s ≡ true
    chars (inl e) k = rw e k
    chars (inr e) k =
        rw (e, all-append is_plain (join b'.' labels) (b'.' ∷ [])) (ground (arith, dot_plain))

    nonempty :
        (labels : List Text)
        → 2 ≤ length labels
        → All IsLabel labels
        → (s ≡ join b'.' labels) ⊎ (s ≡ join b'.' labels ++ b'.' ∷ [])
        → s ≢ []
    nonempty ls m g (inl e) k =
        absurd (omega (arith, (join_dotted ls m g).1, ap length (sym e ∙ k)))
    nonempty ls m g (inr e) k = append-ne-nil (join b'.' ls) (b'.' ∷ []) (cc) (sym e ∙ k)

pub plain_field : (s : Text) → all is_plain s ≡ true → all is_field_char s ≡ true
plain_field [] h = refl
plain_field (c ∷ s) h = ground (arith, plain_field s)

pub plain_Stops : (s : Text) → all is_plain s ≡ true → Stops is_space s
plain_Stops [] h = tt
plain_Stops (c ∷ s) h = ground arith

pub plain_IsTrimmed : (s : Text) → all is_plain s ≡ true → IsTrimmed s
plain_IsTrimmed s h = (plain_Stops s h, plain_Stops (reverse s) (all-reverse is_plain s ∙ h))

reverse-ne-nil : (s : Text) → s ≢ [] → reverse s ≢ []
reverse-ne-nil s h e = h (sym (reverse-reverse s) ∙ ap reverse e)

-- The ends of two texts put together.
pub append-IsTrimmed :
    (s t : Text)
    → s ≢ []
    → t ≢ []
    → Stops is_space s
    → Stops is_space (reverse t)
    → IsTrimmed (s ++ t)
append-IsTrimmed s t m n front back = (
  Stops-append is_space s t m front,
  rw (reverse-append s t) (Stops-append is_space (reverse t) (reverse s) (reverse-ne-nil t n) back),
)

pub append-back :
    (s t : Text) → t ≢ [] → Stops is_space (reverse t) → Stops is_space (reverse (s ++ t))
append-back s t n back =
    rw (reverse-append s t)
      (Stops-append is_space (reverse t) (reverse s) (reverse-ne-nil t n) back)
