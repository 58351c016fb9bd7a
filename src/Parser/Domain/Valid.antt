-- ===== src/Parser/Domain/Valid.antt =====
-- What `isValidDomain` accepts, with its length bounds and the trailing dot.
use perion_assignment.Common.{
  ℕ, ◌≤◌, ◌≡◌, refl, ap, sym, ◌∙◌, true, false, not, ◌&&◌, List, [], ◌∷◌, ◌++◌, arith, all, ◌==◌,
  ◌↔◌, Bool-cases, inl, inr, ◌≢◌, append_assoc, ◌⊎◌, All, leb, ltb, length, all-append, reverse,
  length-append,
}
use mathlib.Core.List.{reverse-append, reverse-reverse, reverse-cons}
use perion_assignment.Text.{
  Text, codes, text_eq, byte_len, trim_suffix, trim_prefix, has_prefix, drop_as, contains,
}
use perion_assignment.Text.Split.{join}
use perion_assignment.Parser.{is_alnum, match_domain, is_valid_domain}
use perion_assignment.Parser.Domain.{IsLabel, match_domain_iff, all-is_label_complete}

-- Two labels or more, with a dot between them and perhaps one behind them, of 253 bytes at most.
abbrev pub IsDomain : Text → Type 0
IsDomain s =
    (labels : List Text) × (2 ≤ length labels)
    × All IsLabel labels
    × ((s ≡ join b'.' labels) ⊎ (s ≡ join b'.' labels ++ b'.' ∷ []))
    × (byte_len s ≤ 253)

contains_dot : (s : Text) → contains (codes ".") s ≡ not (all (λ c. not (c == b'.')) s)
unfolding contains has_prefix
contains_dot [] = refl
contains_dot (c ∷ s) = ground (arith, contains_dot s)

strip_dot :
    (r : Text)
    → (trim_prefix (b'.' ∷ []) r ≡ r)
      ⊎ ((rest : Text) × (r ≡ b'.' ∷ rest) × (trim_prefix (b'.' ∷ []) r ≡ rest))
unfolding trim_prefix has_prefix drop_as
strip_dot [] = inl refl
strip_dot (c ∷ r) = elim (Bool-cases (b'.' == c)) [
  | inl e ↦ inr (r, ground arith, ground arith)
  | inr e ↦ inl (ground arith)
]

-- `TrimSuffix(s, ".")` takes one dot off, or nothing.
trim_suffix-dot :
    (s : Text) → (s ≡ trim_suffix (codes ".") s) ⊎ (s ≡ trim_suffix (codes ".") s ++ b'.' ∷ [])
unfolding trim_suffix
trim_suffix-dot s = elim (strip_dot (reverse s)) [
  | inl e ↦ inl (sym (ap reverse e ∙ reverse-reverse s))
  | inr (rest, e, k) ↦ inr (
      sym (reverse-reverse s)
      ∙ ap reverse e
      ∙ reverse-cons b'.' rest
      ∙ ap (λ (t : Text). reverse t ++ b'.' ∷ []) (sym k))
]

trim_suffix-append_dot : (s : Text) → trim_suffix (codes ".") (s ++ b'.' ∷ []) ≡ s
unfolding trim_suffix trim_prefix has_prefix drop_as
trim_suffix-append_dot s = rw (reverse-append s (b'.' ∷ [])) (reverse-reverse s)

trim_suffix-append_alnum :
    (s : Text) (c : ℕ) → is_alnum c ≡ true → trim_suffix (codes ".") (s ++ c ∷ []) ≡ s ++ c ∷ []
unfolding trim_suffix
trim_suffix-append_alnum s c h =
    ap reverse (
      ap (trim_prefix (b'.' ∷ [])) (reverse-append s (c ∷ []))
      ∙ keep
      ∙ sym (reverse-append s (c ∷ [])))
    ∙ reverse-reverse (s ++ c ∷ [])
  where
    keep : trim_prefix (b'.' ∷ []) (c ∷ reverse s) ≡ c ∷ reverse s
    keep = unfold trim_prefix has_prefix is_alnum in ground arith

abbrev EndsAlnum : Text → Type 0
EndsAlnum s = (front : Text) × (c : ℕ) × (s ≡ front ++ c ∷ []) × (is_alnum c ≡ true)

IsLabel-EndsAlnum : (s : Text) → IsLabel s → EndsAlnum s
IsLabel-EndsAlnum s (inl (c, e, h)) = ([], c, e, h)
IsLabel-EndsAlnum s (inr (c, d, middle, e, h, k, _, _)) = (c ∷ middle, d, e, k)

EndsAlnum-append : (s t : Text) → EndsAlnum t → EndsAlnum (s ++ t)
EndsAlnum-append s t (front, c, e, h) = (s ++ front, c, rw (e, append_assoc), h)

join-EndsAlnum :
    (labels : List Text) → 1 ≤ length labels → All IsLabel labels → EndsAlnum (join b'.' labels)
unfolding join
join-EndsAlnum [] n h = absurd (omega arith)
join-EndsAlnum (s ∷ []) n h = IsLabel-EndsAlnum s h.0
join-EndsAlnum (s ∷ next ∷ labels) n h = EndsAlnum-append s (b'.' ∷ join b'.' (next ∷ labels)) (
    EndsAlnum-append (b'.' ∷ []) (join b'.' (next ∷ labels))
      (join-EndsAlnum (next ∷ labels) (omega arith) h.1))

trim_suffix-join :
    (labels : List Text)
    → 1 ≤ length labels
    → All IsLabel labels
    → trim_suffix (codes ".") (join b'.' labels) ≡ join b'.' labels
trim_suffix-join labels n h =
    let (front, c, e, k) = join-EndsAlnum labels n h in rw e (trim_suffix-append_alnum front c k)

length-le-byte_len : (s : Text) → length s ≤ byte_len s
unfolding byte_len
length-le-byte_len [] = omega arith
length-le-byte_len (c ∷ s) = ground (arith, length-le-byte_len s)

IsLabel-length : (s : Text) → IsLabel s → 1 ≤ length s
IsLabel-length s (inl (c, e, h)) = rw e (omega arith)
IsLabel-length s (inr (c, d, middle, e, _, _, _, _)) = rw e (omega arith)

-- A domain of two labels has a dot and more than one byte.
pub join_dotted :
    (labels : List Text)
    → 2 ≤ length labels
    → All IsLabel labels
    → (contains (codes ".") (join b'.' labels) ≡ true) × (2 ≤ length (join b'.' labels))
unfolding join
join_dotted [] n h = absurd (omega arith)
join_dotted (s ∷ []) n h = absurd (omega arith)
join_dotted (s ∷ next ∷ labels) n h = (
  contains_dot (s ++ b'.' ∷ join b'.' (next ∷ labels))
      ∙ rw (all-append (λ c. not (c == b'.')) s (b'.' ∷ join b'.' (next ∷ labels))) (ground arith),
  omega (arith, length-append s (b'.' ∷ join b'.' (next ∷ labels)), IsLabel-length s h.0),
)

-- Labels whose join has a dot are two or more.
dotted_labels :
    (labels : List Text)
    → labels ≢ []
    → All IsLabel labels
    → contains (codes ".") (join b'.' labels) ≡ true
    → 2 ≤ length labels
unfolding join
dotted_labels [] n h k = absurd (n refl)
dotted_labels (s ∷ []) n h k =
    let plain = (all-is_label_complete (s ∷ []) h).1.0 in absurd (ground (arith, contains_dot s))
dotted_labels (s ∷ next ∷ labels) n h k = omega arith

-- The tests of `isValidDomain` in one conjunction.
is_valid_domain_parts :
    (s : Text)
    → is_valid_domain s ≡ (
        not (text_eq s [])
        && leb (byte_len s) 253
        && contains (codes ".") (trim_suffix (codes ".") s)
        && ltb 1 (byte_len (trim_suffix (codes ".") s))
        && match_domain (trim_suffix (codes ".") s))
unfolding is_valid_domain
is_valid_domain_parts s = ground arith

sound_at :
    (s bare : Text) (labels : List Text)
    → labels ≢ []
    → All IsLabel labels
    → bare ≡ join b'.' labels
    → contains (codes ".") bare ≡ true
    → (s ≡ bare) ⊎ (s ≡ bare ++ b'.' ∷ [])
    → byte_len s ≤ 253
    → IsDomain s
sound_at s bare labels n good form dotted ends short =
    (labels, dotted_labels labels n good (rw form at dotted), good, rw (← form) ends, short)

is_valid_domain_sound : (s : Text) → is_valid_domain s ≡ true → IsDomain s
is_valid_domain_sound s h =
    let parts = sym (is_valid_domain_parts s) ∙ h in
    let m = (match_domain_iff (trim_suffix (codes ".") s)).0 (ground (arith, parts)) in
    sound_at s (trim_suffix (codes ".") s) m.0 m.1 m.2 m.3 (ground (arith, parts))
      (trim_suffix-dot s) (ground (arith, parts))

trimmed :
    (s : Text) (labels : List Text)
    → 2 ≤ length labels
    → All IsLabel labels
    → (s ≡ join b'.' labels) ⊎ (s ≡ join b'.' labels ++ b'.' ∷ [])
    → trim_suffix (codes ".") s ≡ join b'.' labels
trimmed s labels n good (inl e) = rw e (trim_suffix-join labels (omega arith) good)
trimmed s labels n good (inr e) = rw e (trim_suffix-append_dot (join b'.' labels))

not_empty :
    (s bare : Text) → trim_suffix (codes ".") s ≡ bare → 2 ≤ length bare → text_eq s [] ≡ false
unfolding text_eq
not_empty [] bare e n =
    absurd (unfold trim_suffix trim_prefix has_prefix drop_as in omega (arith, ap length e))
not_empty (c ∷ s) bare e n = refl

is_valid_domain_complete : (s : Text) → IsDomain s → is_valid_domain s ≡ true
is_valid_domain_complete s (labels, n, good, form, short) =
    let bare = trimmed s labels n good form in
    let (dotted, long) = join_dotted labels n good in
    let matched =
      (match_domain_iff (join b'.' labels)).1
        (labels, (λ e. absurd (omega (arith, ap length e))), good, refl) in
    is_valid_domain_parts s
    ∙ rw bare (
        ground
          (arith, not_empty s (join b'.' labels) bare long, length-le-byte_len (join b'.' labels)))

-- `isValidDomain` accepts exactly the texts of at most 253 bytes that are two or more labels
-- (1 to 63 letters, digits and hyphens, no hyphen at either end) with a dot between them and
-- perhaps one behind them.
pub is_valid_domain_iff : (s : Text) → (is_valid_domain s ≡ true) ↔ IsDomain s
is_valid_domain_iff s = (is_valid_domain_sound s, is_valid_domain_complete s)
