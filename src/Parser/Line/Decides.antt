-- ===== src/Parser/Line/Decides.antt =====
-- The scanner of ad lines decides `validLineRegex`.
use perion_assignment.Common.{
  ◌≡◌, refl, Bool, true, false, ◌∷◌, ◌++◌, arith, ◌↔◌, if◌then◌else◌, inl, inr, Option, some, none,
}
use mathlib.Core.Option.{some-injective}
use perion_assignment.Text.{Text}
use perion_assignment.Text.While.{Stops}
use perion_assignment.Parser.{
  Matches, matches_of, is_field_char, is_account, take_field, take_comma, take_authority,
  match_line,
}
use perion_assignment.Parser.Line.{IsSpaces, IsField, IsAccount, IsTail, IsMatch}
use perion_assignment.Parser.Line.Steps.{
  bind_option-eq-some, take_field_sound, take_field_complete, take_comma_sound, take_comma_complete,
  is_account_iff, IsField-Stops, IsSpaces-Stops, take_authority_sound, take_authority_complete,
}

-- The parts of a line put together.
parts-IsMatch :
    (line gap gap' r0 r1 r2 r3 tail : Text) (m m' : Matches)
    → m' ≡ m
    → line ≡ m'.exchange ++ r0
    → r0 ≡ b',' ∷ gap ++ r1
    → r1 ≡ m'.publisher ++ r2
    → r2 ≡ b',' ∷ gap' ++ r3
    → r3 ≡ m'.account ++ tail
    → IsSpaces gap × IsSpaces gap' × IsField m'.exchange × IsField m'.publisher
    → IsAccount m'.account
    → IsTail m'.authority tail
    → IsMatch line m
parts-IsMatch line gap gap' r0 r1 r2 r3 tail m m' same e0 e1 e2 e3 e4 h account end =
    rw (← same) (record {
      gap = gap;
      gap' = gap';
      tail = tail;
      form = rw (e0, e1, e2, e3, e4);
      gap_spaces = h.0;
      gap'_spaces = h.1;
      exchange_field = h.2;
      publisher_field = h.3;
      account_known = account;
      tail_form = end;
    })

if-eq-some {ℓ} :
    {A : Type ℓ} (b : Bool) (o : Option A) {a : A}
    → (if b then o else none) ≡ some a
    → (b ≡ true) × (o ≡ some a)
if-eq-some true o h = (refl, h)
if-eq-some false o h = cc

pub match_line_sound : (line : Text) (m : Matches) → match_line line ≡ some m → IsMatch line m
unfolding match_line
match_line_sound line m h =
    let (f1, e1, h1) = bind_option-eq-some (take_field line) _ h in
    let (r1, e2, h2) = bind_option-eq-some (take_comma f1.1) _ h1 in
    let (f2, e3, h3) = bind_option-eq-some (take_field r1) _ h2 in
    let (r3, e4, h4) = bind_option-eq-some (take_comma f2.1) _ h3 in
    let (f3, e5, h5) = bind_option-eq-some (take_field r3) _ h4 in
    let (known, h6) = if-eq-some (is_account f3.0) _ h5 in
    let (authority, e6, h7) = bind_option-eq-some (take_authority f3.1) _ h6 in
    let (field1, split1, _) = take_field_sound line f1.0 f1.1 e1 in
    let (gap, spaces, comma1, _) = take_comma_sound f1.1 r1 e2 in
    let (field2, split2, _) = take_field_sound r1 f2.0 f2.1 e3 in
    let (gap', spaces', comma2, _) = take_comma_sound f2.1 r3 e4 in
    let (field3, split3, _) = take_field_sound r3 f3.0 f3.1 e5 in
    parts-IsMatch line gap gap' f1.1 r1 f2.1 r3 f3.1 m (matches_of f1.0 f2.0 f3.0 authority)
      (some-injective _ _ h7) split1 comma1 split2 comma2 split3 (spaces, spaces', field1, field2)
      ((is_account_iff f3.0).0 known) (take_authority_sound f3.1 authority e6)

-- A known account type is a field.
IsAccount-IsField : (s : Text) → IsAccount s → IsField s
unfolding is_field_char
IsAccount-IsField s (inl e) = rw e (ground arith, refl)
IsAccount-IsField s (inr (inl e)) = rw e (ground arith, refl)
IsAccount-IsField s (inr (inr (inl e))) = rw e (ground arith, refl)
IsAccount-IsField s (inr (inr (inr e))) = rw e (ground arith, refl)

IsTail-Stops : (authority s : Text) → IsTail authority s → Stops is_field_char s
unfolding is_field_char
IsTail-Stops authority s (inl h) = IsSpaces-Stops s h.1
IsTail-Stops authority s (inr (before, after, _, _, _, form)) = rw form refl

-- The scan of a line, read at parts of the expression.
match_line_of_parts :
    (m : Matches) (gap gap' tail : Text)
    → IsSpaces gap
    → IsSpaces gap'
    → IsField m.exchange
    → IsField m.publisher
    → IsAccount m.account
    → IsTail m.authority tail
    → match_line
        (m.exchange ++ (b',' ∷ gap ++ (m.publisher ++ (b',' ∷ gap' ++ (m.account ++ tail)))))
      ≡ some m
unfolding match_line is_field_char
match_line_of_parts m gap gap' tail spaces spaces' field1 field2 known end =
    let account = IsAccount-IsField m.account known in
    rw
      (
        take_field_complete m.exchange
            (b',' ∷ gap ++ (m.publisher ++ (b',' ∷ gap' ++ (m.account ++ tail)))) field1 refl,
        match_line,
      )
      (rw
        (take_comma_complete gap (m.publisher ++ (b',' ∷ gap' ++ (m.account ++ tail))) spaces
          (IsField-Stops m.publisher (b',' ∷ gap' ++ (m.account ++ tail)) field2))
        (rw (take_field_complete m.publisher (b',' ∷ gap' ++ (m.account ++ tail)) field2 refl) (
          rw
            (take_comma_complete gap' (m.account ++ tail) spaces'
              (IsField-Stops m.account tail account))
            (rw (take_field_complete m.account tail account (IsTail-Stops m.authority tail end)) (
              rw ((is_account_iff m.account).1 known)
                (rw (take_authority_complete tail m.authority end)))))))

pub match_line_complete : (line : Text) (m : Matches) → IsMatch line m → match_line line ≡ some m
match_line_complete line m h = rw h.form (
    match_line_of_parts m h.gap h.gap' h.tail h.gap_spaces h.gap'_spaces h.exchange_field
      h.publisher_field h.account_known h.tail_form)

-- The scanner answers with the submatches m of a line exactly when the expression matches the line
-- with those submatches.
pub match_line_iff : (line : Text) (m : Matches) → (match_line line ≡ some m) ↔ IsMatch line m
match_line_iff line m = (match_line_sound line m, match_line_complete line m)
