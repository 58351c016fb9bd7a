-- ===== src/Parser/Entries.antt =====
-- `parseLine` of internal/parser/adstxt.go: which lines give an entry, and what the entry holds.
use perion_assignment.Common.{
  ◌≡◌, refl, sym, ◌∙◌, true, [], ◌++◌, arith, all, ◌↔◌, if◌then◌else◌, Bool-cases, inl, inr, ◌⊎◌,
  Option-cases, some, none,
}
use perion_assignment.Text.{
  Text, codes, CaseTable, to_upper, trim_space, is_space, drop_while, text_eq,
}
use perion_assignment.Text.Trim.{all-trim_space}
use perion_assignment.Models.{AdsTxtEntry}
use perion_assignment.Models.Errors.{invalid_ads_txt_format, ok, err, Is, here, under, unwrap}
use perion_assignment.Parser.{
  Matches, is_field_char, match_line, entry_of, checked_entry, parse_line, is_valid_domain,
  format_error,
}
use perion_assignment.Parser.Line.{IsMatch, IsAccount, IsTail}
use perion_assignment.Parser.Line.Decides.{match_line_iff}
use perion_assignment.Parser.Domain.Valid.{IsDomain, is_valid_domain_iff}

pub format_error-Is : (detail : Text) → Is invalid_ads_txt_format (format_error detail)
unfolding unwrap
format_error-Is detail = under refl here

-- What the rest of the program may rely on in an entry.
pub record IsEntry (entry : AdsTxtEntry) : Type 0 where
  pub domain : IsDomain entry.exchange_domain
  pub publisher : all is_field_char entry.publisher_id ≡ true
  pub account : (entry.account_type ≡ codes "DIRECT") ⊎ (entry.account_type ≡ codes "RESELLER")
  pub authority : all is_field_char entry.certification_auth ≡ true

module _ (table : CaseTable) where
  -- The line matches the expression, and the entry that is made of the submatches has a domain.
  abbrev pub IsEntryOf : Text → AdsTxtEntry → Type 0
  IsEntryOf line entry =
      (m : Matches) × IsMatch line m × (entry ≡ entry_of table m) × IsDomain entry.exchange_domain

  parse_line_of_match :
      (line : Text) (m : Matches)
      → match_line line ≡ some m
      → parse_line table line ≡ checked_entry (entry_of table m)
  unfolding parse_line
  parse_line_of_match line m e = rw (e, parse_line)

  parse_line_of_none :
      (line : Text)
      → match_line line ≡ none
      → parse_line table line ≡ err (format_error (codes "invalid line format: " ++ line))
  unfolding parse_line
  parse_line_of_none line e = rw (e, parse_line)

  checked_entry_sound :
      (made entry : AdsTxtEntry)
      → checked_entry made ≡ ok entry
      → (entry ≡ made) × (is_valid_domain entry.exchange_domain ≡ true)
  unfolding checked_entry
  checked_entry_sound made entry h = ground arith

  checked_entry_complete :
      (entry : AdsTxtEntry)
      → is_valid_domain entry.exchange_domain ≡ true
      → checked_entry entry ≡ ok entry
  unfolding checked_entry
  checked_entry_complete entry h = rw h

  parse_line_sound :
      (line : Text) (entry : AdsTxtEntry) → parse_line table line ≡ ok entry → IsEntryOf line entry
  parse_line_sound line entry h = elim (Option-cases (match_line line)) [
    | inl missed ↦ absurd (cc (parse_line_of_none line missed))
    | inr (m, matched) ↦
        let (same, good) =
          checked_entry_sound (entry_of table m) entry
            (sym (parse_line_of_match line m matched) ∙ h) in
        (
          m,
          (match_line_iff line m).0 matched,
          same,
          (is_valid_domain_iff entry.exchange_domain).0 good,
        )
  ]

  parse_line_complete :
      (line : Text) (entry : AdsTxtEntry) → IsEntryOf line entry → parse_line table line ≡ ok entry
  parse_line_complete line entry (m, matched, same, good) =
      parse_line_of_match line m ((match_line_iff line m).1 matched)
      ∙ rw (← same)
          (checked_entry_complete entry ((is_valid_domain_iff entry.exchange_domain).1 good))

  -- A line gives an entry exactly when the expression matches it and the exchange domain in lower
  -- case is a domain; the entry is then the one that is made of the submatches.
  pub parse_line_iff :
      (line : Text) (entry : AdsTxtEntry)
      → (parse_line table line ≡ ok entry) ↔ IsEntryOf line entry
  parse_line_iff line entry = (parse_line_sound line entry, parse_line_complete line entry)

  upper_account :
      (s : Text)
      → IsAccount s
      → (to_upper table (trim_space s) ≡ codes "DIRECT")
        ⊎ (to_upper table (trim_space s) ≡ codes "RESELLER")
  unfolding to_upper trim_space drop_while is_space
  upper_account s (inl e) = inl (rw e)
  upper_account s (inr (inl e)) = inr (rw e)
  upper_account s (inr (inr (inl e))) = inl (rw e)
  upper_account s (inr (inr (inr e))) = inr (rw e)

  authority_field :
      (s : Text)
      → all is_field_char s ≡ true
      → all is_field_char (if text_eq s [] then [] else trim_space s) ≡ true
  authority_field s h = elim (Bool-cases (text_eq s [])) [
    | inl e ↦ rw e
    | inr e ↦ rw e (all-trim_space is_field_char s h)
  ]

  tail_field : (authority tail : Text) → IsTail authority tail → all is_field_char authority ≡ true
  tail_field authority tail (inl h) = rw h.0
  tail_field authority tail (inr h) = h.4.1

  entry_of-IsEntry :
      (line : Text) (m : Matches)
      → IsMatch line m
      → IsDomain (entry_of table m).exchange_domain
      → IsEntry (entry_of table m)
  unfolding entry_of
  entry_of-IsEntry line m h good = record {
    domain = good;
    publisher = all-trim_space is_field_char m.publisher h.publisher_field.1;
    account = upper_account m.account h.account_known;
    authority = authority_field m.authority (tail_field m.authority h.tail h.tail_form);
  }

  pub IsEntryOf-IsEntry : (line : Text) (entry : AdsTxtEntry) → IsEntryOf line entry → IsEntry entry
  IsEntryOf-IsEntry line entry (m, matched, same, good) =
      rw same (entry_of-IsEntry line m matched (rw same at good))
