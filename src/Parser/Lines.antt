-- ===== src/Parser/Lines.antt =====
-- `Parse` of internal/parser/adstxt.go against the lines of a file as a relation.
use perion_assignment.Common.{
  ◌≡◌, refl, ap, sym, ◌∙◌, true, false, ◌||◌, List, [], ◌∷◌, arith, ◌↔◌, if◌then◌else◌, Bool-cases,
  inl, inr, ◌≢◌, ◌⊎◌, All,
}
use perion_assignment.Text.{
  Text, codes, CaseTable, trim_space, text_eq, text_eq_iff, has_prefix, split, drop_while,
}
use perion_assignment.Text.Split.{join, Lacks, split-join}
use perion_assignment.Models.{AdsTxtEntry}
use perion_assignment.Models.Errors.{GoError, invalid_ads_txt_format, ok, err, Is, Result-cases}
use perion_assignment.Parser.{parse_line, parse_lines, parse, add_entry, non_empty, format_error}
use perion_assignment.Parser.Entries.{
  IsEntry, IsEntryOf, IsEntryOf-IsEntry, parse_line_iff, format_error-Is,
}

non_empty_ok :
    (found entries : List AdsTxtEntry)
    → non_empty found ≡ ok entries
    → (entries ≢ []) × (found ≡ entries)
non_empty_ok [] entries h = cc
non_empty_ok (e ∷ found) entries h = ground arith

non_empty_err : (found : List AdsTxtEntry) (e : GoError) → non_empty found ≡ err e → found ≡ []
non_empty_err [] e h = refl
non_empty_err (entry ∷ found) e h = cc

ok_non_empty : (entries : List AdsTxtEntry) → entries ≢ [] → non_empty entries ≡ ok entries
ok_non_empty [] h = absurd (h refl)
ok_non_empty (e ∷ entries) h = refl

module _ (table : CaseTable) where
  -- A line that `Parse` goes past: blank, a comment, or no entry.
  abbrev pub IsSkipped : Text → Type 0
  IsSkipped raw =
      (trim_space raw ≡ [])
      ⊎ (has_prefix (codes "#") (trim_space raw) ≡ true)
      ⊎ ((entry : AdsTxtEntry) → ¬ IsEntryOf table (trim_space raw) entry)

  -- The entries of a file's lines, in order.
  pub data Reads : List Text → List AdsTxtEntry → Type 0 where
    done : Reads [] []
    skips :
        {raw : Text} {lines : List Text} {entries : List AdsTxtEntry}
        → IsSkipped raw
        → Reads lines entries
        → Reads (raw ∷ lines) entries
    reads :
        {raw : Text} {lines : List Text} {entries : List AdsTxtEntry} {entry : AdsTxtEntry}
        → (trim_space raw ≢ [])
        → has_prefix (codes "#") (trim_space raw) ≡ false
        → IsEntryOf table (trim_space raw) entry
        → Reads lines entries
        → Reads (raw ∷ lines) (entry ∷ entries)

  -- One round of the loop, with the entries of the lines behind it.
  line_step : Text → List AdsTxtEntry → List AdsTxtEntry
  line_step raw entries =
      if text_eq (trim_space raw) [] || has_prefix (codes "#") (trim_space raw)
      then entries
      else add_entry (parse_line table (trim_space raw)) entries

  parse_lines-cons :
      (raw : Text) (lines : List Text)
      → parse_lines table (raw ∷ lines) ≡ line_step raw (parse_lines table lines)
  unfolding parse_lines line_step
  parse_lines-cons raw lines = refl

  step-Reads :
      (raw : Text) (lines : List Text) (entries : List AdsTxtEntry)
      → Reads lines entries
      → Reads (raw ∷ lines) (line_step raw entries)
  unfolding line_step
  step-Reads raw lines entries r = elim (Bool-cases (text_eq (trim_space raw) [])) [
    | inl blank ↦ rw blank (skips (inl ((text_eq_iff (trim_space raw) []).0 blank)) r)
    | inr full ↦ elim (Bool-cases (has_prefix (codes "#") (trim_space raw))) [
      | inl comment ↦ rw (full, comment) (skips (inr (inl comment)) r)
      | inr plain ↦ elim (Result-cases (parse_line table (trim_space raw))) [
        | inl (entry, good) ↦
            rw (full, plain, good)
              (reads (λ e. cc ((text_eq_iff (trim_space raw) []).1 e)) plain
                ((parse_line_iff table (trim_space raw) entry).0 good) r)
        | inr (e, bad) ↦
            rw (full, plain, bad)
              (skips
                (inr (inr (λ entry is. cc ((parse_line_iff table (trim_space raw) entry).1 is)))) r)
      ]
    ]
  ]

  parse_lines-Reads : (lines : List Text) → Reads lines (parse_lines table lines)
  unfolding parse_lines
  parse_lines-Reads [] = done
  parse_lines-Reads (raw ∷ lines) =
      rw (parse_lines-cons raw lines)
        (step-Reads raw lines (parse_lines table lines) (parse_lines-Reads lines))

  skipped_step :
      (raw : Text) (entries : List AdsTxtEntry) → IsSkipped raw → line_step raw entries ≡ entries
  unfolding line_step
  skipped_step raw entries (inl blank) = rw ((text_eq_iff (trim_space raw) []).1 blank)
  skipped_step raw entries (inr (inl comment)) = ground arith
  skipped_step raw entries (inr (inr no_entry)) =
      elim (Result-cases (parse_line table (trim_space raw))) [
        | inl (entry, good) ↦
            absurd (no_entry entry ((parse_line_iff table (trim_space raw) entry).0 good))
        | inr (e, bad) ↦ ground arith
      ]

  read_step :
      (raw : Text) (entry : AdsTxtEntry) (entries : List AdsTxtEntry)
      → trim_space raw ≢ []
      → has_prefix (codes "#") (trim_space raw) ≡ false
      → IsEntryOf table (trim_space raw) entry
      → line_step raw entries ≡ entry ∷ entries
  unfolding line_step
  read_step raw entry entries full plain is =
      ground
        (arith, (parse_line_iff table (trim_space raw) entry).1 is, text_eq_iff (trim_space raw) [])

  Reads-parse_lines :
      {lines : List Text} {entries : List AdsTxtEntry}
      → Reads lines entries
      → parse_lines table lines ≡ entries
  unfolding parse_lines
  Reads-parse_lines done = refl
  Reads-parse_lines (skips {raw} {lines} {entries} h r) =
      parse_lines-cons raw lines
      ∙ skipped_step raw (parse_lines table lines) h
      ∙ Reads-parse_lines r
  Reads-parse_lines (reads {raw} {lines} {entries} {entry} full plain is r) =
      parse_lines-cons raw lines
      ∙ read_step raw entry (parse_lines table lines) full plain is
      ∙ ap (◌∷◌ entry) (Reads-parse_lines r)

  parse_of_lines :
      (content : Text)
      → (content ≢ [])
      → parse table content ≡ non_empty (parse_lines table (split 10 content))
  unfolding parse
  parse_of_lines content h = ground (arith, text_eq_iff content [])

  Reads-of :
      (lines : List Text) (entries : List AdsTxtEntry)
      → parse_lines table lines ≡ entries
      → Reads lines entries
  Reads-of lines entries e = rw (← e) (parse_lines-Reads lines)

  parse_lines-split_nil : parse_lines table (split 10 []) ≡ []
  unfolding split parse_lines trim_space drop_while text_eq
  parse_lines-split_nil = refl

  parse_nil : parse table [] ≡ err (format_error (codes "empty content"))
  unfolding parse text_eq
  parse_nil = refl

  parse_of_split :
      (content : Text) (entries : List AdsTxtEntry)
      → (parse table content ≡ ok entries)
        ↔ ((entries ≢ []) × (parse_lines table (split 10 content) ≡ entries))
  parse_of_split [] entries =
      ((λ h. cc (parse_nil)), (λ h. absurd (h.0 (sym h.1 ∙ parse_lines-split_nil))))
  parse_of_split (c ∷ content) entries =
      let same = parse_of_lines (c ∷ content) (cc) in
      (
        (λ h. non_empty_ok _ entries (sym same ∙ h)),
        (λ h. same ∙ rw h.1 (ok_non_empty entries h.0)),
      )

  -- Of lines without a newline: `Parse` gives entries exactly when they are the entries that the
  -- lines give in order, and at least one.
  pub parse_iff :
      (lines : List Text) (entries : List AdsTxtEntry)
      → lines ≢ []
      → All (Lacks 10) lines
      → (parse table (join 10 lines) ≡ ok entries) ↔ ((entries ≢ []) × Reads lines entries)
  parse_iff lines entries n h =
      let back = split-join 10 lines n h in
      let (to, from) = parse_of_split (join 10 lines) entries in
      (
        (λ k.
            let (some_entry, same) = to k in
            (some_entry, Reads-of lines entries (rw back at same))),
        (λ k. from (k.0, rw back (Reads-parse_lines k.1))),
      )

  Reads-IsEntry :
      {lines : List Text} {entries : List AdsTxtEntry} → Reads lines entries → All IsEntry entries
  Reads-IsEntry done = tt
  Reads-IsEntry (skips h r) = Reads-IsEntry r
  Reads-IsEntry (reads {raw} {entry} full plain is r) =
      (IsEntryOf-IsEntry table (trim_space raw) entry is, Reads-IsEntry r)

  -- Every entry that `Parse` gives is well formed, and it gives at least one.
  pub parse-IsEntry :
      (content : Text) (entries : List AdsTxtEntry)
      → parse table content ≡ ok entries
      → (entries ≢ []) × All IsEntry entries
  parse-IsEntry content entries h =
      let (some_entry, same) = (parse_of_split content entries).0 h in
      (some_entry, Reads-IsEntry (Reads-of (split 10 content) entries same))

  lines_of_err :
      (content : Text) (e : GoError)
      → parse table content ≡ err e
      → parse_lines table (split 10 content) ≡ []
  lines_of_err [] e h = parse_lines-split_nil
  lines_of_err (c ∷ content) e h =
      non_empty_err (parse_lines table (split 10 (c ∷ content))) e
        (sym (parse_of_lines (c ∷ content) (cc)) ∙ h)

  err_of_lines :
      (content : Text)
      → parse_lines table (split 10 content) ≡ []
      → (e : GoError) × (parse table content ≡ err e) × Is invalid_ads_txt_format e
  err_of_lines [] h = (_, parse_nil, format_error-Is _)
  err_of_lines (c ∷ content) h =
      (_, parse_of_lines (c ∷ content) (cc) ∙ ap non_empty h, format_error-Is _)

  -- `Parse` fails exactly when no line of the content gives an entry, and its error is then the
  -- sentinel of an invalid format.
  pub parse_error :
      (content : Text)
      → ((e : GoError) × (parse table content ≡ err e) × Is invalid_ads_txt_format e)
        ↔ Reads (split 10 content) []
  parse_error content = (
    (λ h. Reads-of (split 10 content) [] (lines_of_err content h.0 h.1)),
    (λ r. err_of_lines content (Reads-parse_lines r)),
  )
