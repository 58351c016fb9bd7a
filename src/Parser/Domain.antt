-- ===== src/Parser/Domain.antt =====
-- `isValidDomain` of internal/parser/adstxt.go against `domainRegex` as a relation.
pub mod Valid
use Prim.Native.String.{String}
use perion_assignment.Common.{
  ℕ, ◌+◌, ◌≤◌, ◌<◌, ◌≡◌, refl, ap, sym, ◌∙◌, Bool, true, false, not, ◌&&◌, ◌||◌, List, [], ◌∷◌,
  ◌++◌, arith, all, ◌==◌, ◌↔◌, if◌then◌else◌, Bool-cases, inl, inr, ◌≢◌, append-nil, append_assoc,
  ◌⊎◌, ==_iff, All, leb, ltb, length, all-append, reverse, length-append,
}
use mathlib.Core.List.{reverse-append, reverse-reverse, reverse-cons}
use perion_assignment.Text.{
  Text, codes, split, text_eq, text_eq_iff, byte_len, trim_suffix, contains,
}
use perion_assignment.Text.Split.{join, Lacks, join-split, split-join, split-ne-nil, split-Lacks}
use perion_assignment.Parser.{
  is_alnum, is_label_char, is_label, first_is, match_domain, is_valid_domain,
}

-- `[a-zA-Z0-9]([a-zA-Z0-9\-]{0,61}[a-zA-Z0-9])?`.
abbrev pub IsLabel : Text → Type 0
IsLabel s =
    ((c : ℕ) × (s ≡ c ∷ []) × (is_alnum c ≡ true))
    ⊎ ((c : ℕ) × (d : ℕ) × (middle : Text) × (s ≡ c ∷ (middle ++ d ∷ []))
        × (is_alnum c ≡ true)
        × (is_alnum d ≡ true)
        × (all is_label_char middle ≡ true)
        × (length middle ≤ 61))

-- `^L(\.L)*$` for a label L: labels with a dot between them.
abbrev pub IsDomainMatch : Text → Type 0
IsDomainMatch s = (labels : List Text) × (labels ≢ []) × All IsLabel labels × (s ≡ join b'.' labels)

all_label_of_alnum : (c : ℕ) → is_alnum c ≡ true → is_label_char c ≡ true
unfolding is_label_char
all_label_of_alnum c h = ground arith

-- A text of two or more code points has a first, a middle and a last.
last_split : (c : ℕ) (s : Text) → (s ≡ []) ⊎ ((d : ℕ) × (middle : Text) × (s ≡ middle ++ d ∷ []))
last_split c [] = inl refl
last_split c (d ∷ s) = elim (last_split d s) [
  | inl e ↦ inr (d, [], rw e)
  | inr (l, middle, e) ↦ inr (l, d ∷ middle, rw e)
]

first_is-reverse :
    (p : ℕ → Bool) (c d : ℕ) (middle : Text) → first_is p (reverse (c ∷ (middle ++ d ∷ []))) ≡ p d
first_is-reverse p c d middle =
    rw (reverse-cons c (middle ++ d ∷ []), reverse-append middle (d ∷ []))

-- The test of a label of two or more code points, part by part.
is_label_long :
    (c d : ℕ) (middle : Text)
    → is_label (c ∷ (middle ++ d ∷ []))
      ≡ (is_alnum c && is_alnum d && all is_label_char middle && leb (length middle) 61)
unfolding is_label
is_label_long c d middle =
    rw
      (
        first_is-reverse is_alnum c d middle,
        all-append is_label_char middle (d ∷ []),
        length-append middle (d ∷ []),
      )
      (ground (arith, all_label_of_alnum c, all_label_of_alnum d))

is_label_short : (c : ℕ) → is_label (c ∷ []) ≡ is_alnum c
unfolding is_label
is_label_short c = ground (arith, all_label_of_alnum c)

is_label_sound : (s : Text) → is_label s ≡ true → IsLabel s
is_label_sound [] h = unfold is_label in cc
is_label_sound (c ∷ s) h = elim (last_split c s) [
  | inl e ↦ inl (c, rw e, sym (is_label_short c) ∙ rw e at h)
  | inr (d, middle, e) ↦
      let parts = rw e at h in
      inr (
        c,
        d,
        middle,
        rw e,
        ground (arith, parts, is_label_long c d middle),
        ground (arith, parts, is_label_long c d middle),
        ground (arith, parts, is_label_long c d middle),
        ground (arith, parts, is_label_long c d middle),
      )
]

is_label_complete : (s : Text) → IsLabel s → is_label s ≡ true
is_label_complete s (inl (c, e, h)) = rw (e, is_label_short c) h
is_label_complete s (inr (c, d, middle, e, first, last, inside, short)) =
    rw (e, is_label_long c d middle) (ground arith)

-- A label has no dot.
is_label_char-dot : (s : Text) → all is_label_char s ≡ true → Lacks b'.' s
unfolding is_label_char is_alnum
is_label_char-dot [] h = refl
is_label_char-dot (c ∷ s) h = ground (arith, is_label_char-dot s)

pub is_label-Lacks : (s : Text) → is_label s ≡ true → Lacks b'.' s
unfolding is_label
is_label-Lacks s h = is_label_char-dot s (ground arith)

all-is_label_sound : (labels : List Text) → all is_label labels ≡ true → All IsLabel labels
all-is_label_sound [] h = tt
all-is_label_sound (s ∷ labels) h =
    (is_label_sound s (ground arith), all-is_label_sound labels (ground arith))

pub all-is_label_complete :
    (labels : List Text)
    → All IsLabel labels
    → (all is_label labels ≡ true) × All (Lacks b'.') labels
all-is_label_complete [] h = (refl, tt)
all-is_label_complete (s ∷ labels) h =
    let first = is_label_complete s h.0 in
    let rest = all-is_label_complete labels h.1 in (ground arith, (is_label-Lacks s first, rest.1))

-- The scanner of domains accepts a text exactly when `domainRegex` matches it.
pub match_domain_iff : (s : Text) → (match_domain s ≡ true) ↔ IsDomainMatch s
unfolding match_domain
match_domain_iff s = (
  (λ h. (
    split b'.' s,
    split-ne-nil b'.' s,
    all-is_label_sound (split b'.' s) h,
    sym (join-split b'.' s),
  )),
  (λ m. complete m.0 m.1 m.2 m.3),
)
  where
    complete :
        (labels : List Text)
        → labels ≢ []
        → All IsLabel labels
        → s ≡ join b'.' labels
        → all is_label (split b'.' s) ≡ true
    complete labels h k e =
        let good = all-is_label_complete labels k in
        rw (e, split-join b'.' labels h good.1) (good.0)
