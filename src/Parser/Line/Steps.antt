-- ===== src/Parser/Line/Steps.antt =====
-- One step of the scanner of ad lines each, in both directions.
use perion_assignment.Common.{
  ◌≡◌, refl, ap, sym, true, [], ◌∷◌, ◌++◌, arith, ◌==◌, ◌↔◌, Bool-cases, inl, inr, ◌≢◌, Option,
  some, none, append-nil, Option-cases,
}
use perion_assignment.Text.{Text, take_while, drop_while, codes, text_eq_iff}
use perion_assignment.Text.While.{
  Stops, take_while-append-drop_while, all-take_while, drop_while-Stops, drop_while-append,
  take_while-append, drop_while-all,
}
use perion_assignment.Parser.{
  is_re_space, is_field_char, is_account, bind_option, field_with, at_end, take_field, take_comma,
  finish, take_authority,
}
use perion_assignment.Parser.Line.{IsSpaces, IsField, IsAccount, IsTail}

pub bind_option-eq-some {ℓ κ} :
    {A : Type ℓ} {B : Type κ} (m : Option A) (f : A → Option B) {b : B}
    → bind_option m f ≡ some b
    → (a : A) × (m ≡ some a) × (f a ≡ some b)
bind_option-eq-some none f h = cc
bind_option-eq-some (some a) f h = (a, refl, h)

field_with_sound :
    (run rest field rest' : Text)
    → field_with run rest ≡ some (field, rest')
    → (field ≢ []) × (run ≡ field) × (rest ≡ rest')
field_with_sound [] rest field rest' h = cc
field_with_sound (c ∷ run) rest field rest' h = ground arith

pub take_field_sound :
    (s field rest : Text)
    → take_field s ≡ some (field, rest)
    → IsField field × (s ≡ field ++ rest) × Stops is_field_char rest
unfolding take_field
take_field_sound s field rest h =
    let parts =
      field_with_sound (take_while is_field_char s) (drop_while is_field_char s) field rest h in
    (
      (parts.0, rw (← parts.1) (all-take_while is_field_char s)),
      rw (← parts.1, ← parts.2) (sym (take_while-append-drop_while is_field_char s)),
      rw (← parts.2) (drop_while-Stops is_field_char s),
    )

pub take_field_complete :
    (field rest : Text)
    → IsField field
    → Stops is_field_char rest
    → take_field (field ++ rest) ≡ some (field, rest)
unfolding take_field
take_field_complete [] rest h k = absurd (h.0 refl)
take_field_complete (c ∷ field) rest h k = rw (
  take_while-append is_field_char (c ∷ field) rest h.1 k,
  drop_while-append is_field_char (c ∷ field) rest h.1 k,
)

pub take_comma_sound :
    (s rest : Text)
    → take_comma s ≡ some rest
    → (gap : Text) × IsSpaces gap × (s ≡ b',' ∷ gap ++ rest) × Stops is_re_space rest
unfolding take_comma
take_comma_sound [] rest h = cc
take_comma_sound (c ∷ s) rest h = elim (Bool-cases (c == b',')) [
  | inl comma ↦
      let same : drop_while is_re_space s ≡ rest = ground arith in
      (
        take_while is_re_space s,
        all-take_while is_re_space s,
        ground (arith, take_while-append-drop_while is_re_space s),
        rw (← same) (drop_while-Stops is_re_space s),
      )
  | inr other ↦ absurd (ground arith)
]

pub take_comma_complete :
    (gap rest : Text)
    → IsSpaces gap
    → Stops is_re_space rest
    → take_comma (b',' ∷ gap ++ rest) ≡ some rest
unfolding take_comma
take_comma_complete gap rest h k = ap some (drop_while-append is_re_space gap rest h k)

pub is_account_iff : (s : Text) → (is_account s ≡ true) ↔ IsAccount s
unfolding is_account
is_account_iff s = ground (
  arith,
  text_eq_iff s (codes "DIRECT"),
  text_eq_iff s (codes "RESELLER"),
  text_eq_iff s (codes "direct"),
  text_eq_iff s (codes "reseller"),
)

-- A field begins with no white space, and white space ends a field.
pub IsField-Stops : (field rest : Text) → IsField field → Stops is_re_space (field ++ rest)
unfolding is_field_char
IsField-Stops [] rest h = absurd (h.0 refl)
IsField-Stops (c ∷ field) rest h = ground arith

pub IsSpaces-Stops : (s : Text) → IsSpaces s → Stops is_field_char s
unfolding is_field_char
IsSpaces-Stops [] h = tt
IsSpaces-Stops (c ∷ s) h = ground arith

finish_sound :
    (authority s found : Text) → finish authority s ≡ some found → (authority ≡ found) × IsSpaces s
unfolding finish
finish_sound authority s found h =
    at_end_sound (drop_while is_re_space s) (take_while-append-drop_while is_re_space s) h
  where
    at_end_sound :
        (rest : Text)
        → take_while is_re_space s ++ rest ≡ s
        → at_end authority rest ≡ some found
        → (authority ≡ found) × IsSpaces s
    at_end_sound [] e k =
        (cc, rw (← e, append-nil (take_while is_re_space s)) (all-take_while is_re_space s))
    at_end_sound (c ∷ rest) e k = cc

finish_complete : (authority s : Text) → IsSpaces s → finish authority s ≡ some authority
unfolding finish
finish_complete authority s h = rw (drop_while-all is_re_space s h)

take_comma_of_IsSpaces : (s : Text) → IsSpaces s → take_comma s ≡ none
unfolding take_comma is_re_space
take_comma_of_IsSpaces [] h = refl
take_comma_of_IsSpaces (c ∷ s) h = ground arith

-- The parts of an authority put together.
authority-IsTail :
    (s gap rest field after authority : Text)
    → s ≡ b',' ∷ gap ++ rest
    → rest ≡ field ++ after
    → field ≡ authority
    → IsSpaces gap
    → IsSpaces after
    → IsField field
    → IsTail authority s
authority-IsTail s gap rest field after authority e split same before behind is_field =
    inr (gap, after, before, behind, rw (← same) is_field, rw (e, split, same))

pub take_authority_sound :
    (s authority : Text) → take_authority s ≡ some authority → IsTail authority s
unfolding take_authority
take_authority_sound s authority h = elim (Option-cases (take_comma s)) [
  | inl absent ↦
      let found = finish_sound [] s authority (rw (absent, take_authority) at h) in
      inl (sym found.0, found.1)
  | inr (rest, present) ↦
      let (field, taken, done) =
        bind_option-eq-some (take_field rest) (λ p. finish p.0 p.1)
          (rw (present, take_authority) at h) in
      let (gap, spaces, form, _) = take_comma_sound s rest present in
      let (is_field, split, _) = take_field_sound rest field.0 field.1 taken in
      let (same, after) = finish_sound field.0 field.1 authority done in
      authority-IsTail s gap rest field.0 field.1 authority form split same spaces after is_field
]

present_authority :
    (gap authority after : Text)
    → IsSpaces gap
    → IsSpaces after
    → IsField authority
    → take_authority (b',' ∷ gap ++ (authority ++ after)) ≡ some authority
unfolding take_authority
present_authority gap authority after spaces spaces' field =
    rw
      (
        take_comma_complete gap (authority ++ after) spaces (IsField-Stops authority after field),
        take_authority,
      )
      (rw (take_field_complete authority after field (IsSpaces-Stops after spaces'))
        (finish_complete authority after spaces'))

absent_authority : (s : Text) → IsSpaces s → take_authority s ≡ some []
unfolding take_authority
absent_authority s spaces =
    rw (take_comma_of_IsSpaces s spaces, take_authority) (finish_complete [] s spaces)

pub take_authority_complete :
    (s authority : Text) → IsTail authority s → take_authority s ≡ some authority
take_authority_complete s authority (inl (none_given, spaces)) =
    rw none_given (absent_authority s spaces)
take_authority_complete s authority (inr (before, after, spaces, spaces', field, form)) =
    rw form (present_authority before authority after spaces spaces' field)
