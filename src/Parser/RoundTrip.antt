-- ===== src/Parser/RoundTrip.antt =====
-- Entries written as lines of an ads.txt file come back from the parser.
pub mod Plain
use mathlib.Core.List.{reverse-append, reverse-reverse}
use perion_assignment.Common.{
  ℕ, ◌≡◌, refl, ap, sym, ◌∙◌, Bool, true, false, not, ◌&&◌, List, [], ◌∷◌, ◌++◌, arith, all,
  if◌then◌else◌, inl, inr, ◌≢◌, ◌⊎◌, All, map, ◌==◌, append-nil, all-append, all-reverse, reverse,
  ◌≤◌, length,
}
use perion_assignment.Text.{
  Text, codes, CaseTable, trim_space, text_eq, has_prefix, drop_while, to_lower, to_upper, is_space,
}
use perion_assignment.Text.Split.{join, Lacks}
use perion_assignment.Text.While.{Stops, Stops-append}
use perion_assignment.Text.Trim.{IsTrimmed, trim_space_of_IsTrimmed}
use perion_assignment.Models.{AdsTxtEntry}
use perion_assignment.Models.Errors.{ok}
use perion_assignment.Parser.{
  Matches, matches_of, is_field_char, is_re_space, is_label_char, is_alnum, entry_of, parse,
}
use perion_assignment.Parser.Line.{IsMatch, IsField, IsTail, IsAccount}
use perion_assignment.Parser.Domain.{IsLabel}
use perion_assignment.Parser.Domain.Valid.{IsDomain, join_dotted}
use perion_assignment.Parser.Entries.{IsEntryOf}
use perion_assignment.Parser.Lines.{Reads, done, reads, parse_iff}
use perion_assignment.Parser.RoundTrip.Plain.{
  is_plain, append-ne-nil, IsDomain-plain, plain_field, plain_Stops, plain_IsTrimmed,
  append-IsTrimmed, append-back,
}

-- The optional last field of a line.
authority_text : Text → Text
authority_text [] = []
authority_text (c ∷ s) = codes ", " ++ (c ∷ s)

-- An entry as a line: its fields with a comma and a blank between them.
pub render : AdsTxtEntry → Text
unfolding authority_text
render e =
    e.exchange_domain
    ++ (codes ", "
        ++ (e.publisher_id
            ++ (codes ", " ++ (e.account_type ++ authority_text e.certification_auth))))

-- A field with no white space of Unicode at its ends.
abbrev pub IsCleanField : Text → Type 0
IsCleanField s = IsField s × IsTrimmed s

-- An entry in the form that the parser gives: its domain in lower case, its account type in upper.
pub record IsCanonical (table : CaseTable) (e : AdsTxtEntry) : Type 0 where
  pub domain : IsDomain e.exchange_domain
  pub lower : to_lower table e.exchange_domain ≡ e.exchange_domain
  pub publisher : IsCleanField e.publisher_id
  pub account : (e.account_type ≡ codes "DIRECT") ⊎ (e.account_type ≡ codes "RESELLER")
  pub authority : (e.certification_auth ≡ []) ⊎ IsCleanField e.certification_auth

account_ends :
    (s : Text)
    → (s ≡ codes "DIRECT") ⊎ (s ≡ codes "RESELLER")
    → (s ≢ []) × Stops is_space (reverse s) × (all is_field_char s ≡ true)
unfolding is_space is_field_char is_re_space
account_ends s (inl e) = (λ k. cc, rw e (refl), rw e (refl))
account_ends s (inr e) = (λ k. cc, rw e (refl), rw e (refl))

authority_ends :
    (account authority : Text)
    → account ≢ []
    → Stops is_space (reverse account)
    → (authority ≡ []) ⊎ IsCleanField authority
    → Stops is_space (reverse (account ++ authority_text authority))
unfolding authority_text
authority_ends account [] n back h = rw (append-nil account) back
authority_ends account (c ∷ s) n back (inl e) = absurd (cc)
authority_ends account (c ∷ s) n back (inr h) =
    append-back account (codes ", " ++ (c ∷ s)) (cc) (append-back (codes ", ") (c ∷ s) h.0.0 h.1.1)

left-ne-nil : (s t : Text) → s ≢ [] → s ++ t ≢ []
left-ne-nil [] t h = absurd (h refl)
left-ne-nil (c ∷ s) t h = λ e. cc

clean-IsTail :
    (authority : Text)
    → (authority ≡ []) ⊎ IsCleanField authority
    → IsTail authority (authority_text authority)
unfolding authority_text is_re_space
clean-IsTail [] h = inl (refl, refl)
clean-IsTail (c ∷ s) (inl e) = absurd (cc)
clean-IsTail (c ∷ s) (inr h) = inr (codes " ", [], refl, refl, h.0, rw (append-nil s))

known-IsAccount : (s : Text) → (s ≡ codes "DIRECT") ⊎ (s ≡ codes "RESELLER") → IsAccount s
known-IsAccount s (inl e) = inl e
known-IsAccount s (inr e) = inr (inl e)

kept_account :
    (table : CaseTable) (s : Text)
    → (s ≡ codes "DIRECT") ⊎ (s ≡ codes "RESELLER")
    → to_upper table (trim_space s) ≡ s
unfolding to_upper trim_space drop_while is_space
kept_account table s (inl e) = rw e
kept_account table s (inr e) = rw e

kept_authority :
    (s : Text) → (s ≡ []) ⊎ IsCleanField s → (if text_eq s [] then [] else trim_space s) ≡ s
unfolding text_eq
kept_authority [] h = refl
kept_authority (c ∷ s) (inl e) = absurd (cc)
kept_authority (c ∷ s) (inr h) = trim_space_of_IsTrimmed (c ∷ s) h.1

no_hash :
    (s : Text)
    → s ≢ []
    → all is_plain s ≡ true
    → (rest : Text) → has_prefix (codes "#") (s ++ rest) ≡ false
unfolding has_prefix
no_hash [] n h rest = absurd (n refl)
no_hash (c ∷ s) n h rest = ground arith

-- A field has no newline.
field-Lacks : (s : Text) → all is_field_char s ≡ true → Lacks 10 s
unfolding is_field_char is_re_space
field-Lacks [] h = refl
field-Lacks (c ∷ s) h = ground (arith, field-Lacks s)

authority-Lacks :
    (authority : Text)
    → (authority ≡ []) ⊎ IsCleanField authority
    → Lacks 10 (authority_text authority)
unfolding authority_text
authority-Lacks [] h = refl
authority-Lacks (c ∷ s) (inl e) = absurd (cc)
authority-Lacks (c ∷ s) (inr h) = field-Lacks (c ∷ s) h.0.1

append-Lacks : (s t : Text) → Lacks 10 s → Lacks 10 t → Lacks 10 (s ++ t)
append-Lacks s t h k = all-append (λ c. not (c == 10)) s t ∙ ground arith

module _ (table : CaseTable) (e : AdsTxtEntry) (h : IsCanonical table e) where
  render-IsTrimmed : IsTrimmed (render e)
  unfolding render
  render-IsTrimmed =
      let plain = IsDomain-plain e.exchange_domain h.domain in
      let account = account_ends e.account_type h.account in
      let ending = e.account_type ++ authority_text e.certification_auth in
      let back =
        authority_ends e.account_type e.certification_auth account.0 account.1 h.authority in
      let full : ending ≢ [] =
        left-ne-nil e.account_type (authority_text e.certification_auth) account.0 in
      append-IsTrimmed e.exchange_domain (codes ", " ++ (e.publisher_id ++ (codes ", " ++ ending)))
        plain.0 (cc) (plain_Stops e.exchange_domain plain.1)
        (append-back (codes ", ") (e.publisher_id ++ (codes ", " ++ ending))
          (append-ne-nil e.publisher_id (codes ", " ++ ending) (cc))
          (append-back e.publisher_id (codes ", " ++ ending) (cc)
            (append-back (codes ", ") ending full back)))

  canonical-IsTail : IsTail e.certification_auth (authority_text e.certification_auth)
  canonical-IsTail = clean-IsTail e.certification_auth h.authority

  canonical_matches : Matches
  canonical_matches =
      matches_of e.exchange_domain e.publisher_id e.account_type e.certification_auth

  render-IsMatch : IsMatch (render e) canonical_matches
  unfolding render canonical_matches is_re_space
  render-IsMatch =
      let plain = IsDomain-plain e.exchange_domain h.domain in
      record {
        gap = codes " ";
        gap' = codes " ";
        tail = authority_text e.certification_auth;
        form = refl;
        gap_spaces = refl;
        gap'_spaces = refl;
        exchange_field = (plain.0, plain_field e.exchange_domain plain.1);
        publisher_field = h.publisher.0;
        account_known = known-IsAccount e.account_type h.account;
        tail_form = canonical-IsTail;
      }

  canonical_entry : e ≡ entry_of table canonical_matches
  unfolding entry_of canonical_matches
  canonical_entry =
      let plain = IsDomain-plain e.exchange_domain h.domain in
      let domain =
        ap (to_lower table)
          (trim_space_of_IsTrimmed e.exchange_domain (plain_IsTrimmed e.exchange_domain plain.1))
        ∙ h.lower in
      let publisher = trim_space_of_IsTrimmed e.publisher_id h.publisher.1 in
      let account = kept_account table e.account_type h.account in
      let authority = kept_authority e.certification_auth h.authority in
      λ i. record {
        exchange_domain = sym domain i;
        publisher_id = sym publisher i;
        account_type = sym account i;
        certification_auth = sym authority i;
      }

  render-IsEntryOf : IsEntryOf table (render e) e
  render-IsEntryOf = (canonical_matches, render-IsMatch, canonical_entry, h.domain)

  render-Lacks : Lacks 10 (render e)
  unfolding render
  render-Lacks =
      let plain = IsDomain-plain e.exchange_domain h.domain in
      let end = authority_text e.certification_auth in
      let account = e.account_type ++ end in
      let publisher = e.publisher_id ++ (codes ", " ++ account) in
      append-Lacks e.exchange_domain (codes ", " ++ publisher)
        (field-Lacks e.exchange_domain (plain_field e.exchange_domain plain.1))
        (append-Lacks (codes ", ") publisher refl (
          append-Lacks e.publisher_id (codes ", " ++ account)
            (field-Lacks e.publisher_id h.publisher.0.1)
            (append-Lacks (codes ", ") account refl (
              append-Lacks e.account_type end
                (field-Lacks e.account_type (account_ends e.account_type h.account).2)
                (authority-Lacks e.certification_auth h.authority)))))

  -- A line that begins with a plain code point is no comment.
  render-not_comment : (render e ≢ []) × (has_prefix (codes "#") (render e) ≡ false)
  unfolding render has_prefix
  render-not_comment =
      let plain = IsDomain-plain e.exchange_domain h.domain in
      (left-ne-nil e.exchange_domain _ plain.0, no_hash e.exchange_domain plain.0 plain.1 _)

  render-Reads :
      {lines : List Text} {entries : List AdsTxtEntry}
      → Reads table lines entries
      → Reads table (render e ∷ lines) (e ∷ entries)
  render-Reads r =
      let same = trim_space_of_IsTrimmed (render e) render-IsTrimmed in
      reads (rw same render-not_comment.0) (rw same render-not_comment.1) (rw same render-IsEntryOf)
        r

module _ (table : CaseTable) where
  renders-Reads :
      (entries : List AdsTxtEntry)
      → All (IsCanonical table) entries
      → Reads table (map render entries) entries × All (Lacks 10) (map render entries)
  renders-Reads [] h = (done, tt)
  renders-Reads (e ∷ entries) h =
      let (rest, lacks) = renders-Reads entries h.1 in
      (render-Reads table e h.0 rest, (render-Lacks table e h.0, lacks))

  -- One or more entries in canonical form, written one to a line, are what `Parse` gives back.
  pub parse-render :
      (entries : List AdsTxtEntry)
      → entries ≢ []
      → All (IsCanonical table) entries
      → parse table (join 10 (map render entries)) ≡ ok entries
  parse-render [] n h = absurd (n refl)
  parse-render (e ∷ entries) n h =
      let (rest, lacks) = renders-Reads (e ∷ entries) h in
      (parse_iff table (map render (e ∷ entries)) (e ∷ entries) (cc) lacks).1 (n, rest)
