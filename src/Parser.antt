-- ===== src/Parser.antt =====
-- internal/parser/adstxt.go: the parser of ads.txt files. The two regular expressions are matched
-- by scanners; Parser/Line.antt and Parser/Domain.antt state the expressions.
pub mod Line
pub mod Domain
pub mod Entries
pub mod Lines
pub mod Count
pub mod RoundTrip
mod Examples
use Prim.Native.String.{String}
use perion_assignment.Common.{
  ℕ, Bool, true, false, not, ◌&&◌, ◌||◌, Option, none, some, ◌++◌, ◌≡◌, refl, List, [], ◌∷◌, arith,
  ◌==◌, ltb, leb, if◌then◌else◌, all, length, reverse,
}
use perion_assignment.Text.{
  Text, codes, text_eq, byte_len, trim_space, has_prefix, trim_suffix, contains, split, CaseTable,
  to_lower, to_upper, drop_while, take_while,
}
use perion_assignment.Models.{AdsTxtEntry}
use perion_assignment.Models.Errors.{
  GoError, invalid_ads_txt_format, wrapped, Result, ok, err, error_text, ◌>>=◌,
}

-- `\s` of a regular expression, and `[^,\s]`.
unfoldable pub is_re_space : ℕ → Bool
is_re_space c = c == 9 || c == 10 || c == 12 || c == 13 || c == 32

unfoldable pub is_field_char : ℕ → Bool
unfolding is_re_space
is_field_char c = not (c == b',') && not (is_re_space c)

-- The submatches 1 to 4 of `validLineRegex`; the fourth is empty if its group takes no part.
pub record Matches : Type 0 where
  pub exchange : Text
  pub publisher : Text
  pub account : Text
  pub authority : Text

abbrev pub matches_of : (exchange publisher account authority : Text) → Matches
matches_of exchange publisher account authority = record {
  exchange = exchange;
  publisher = publisher;
  account = account;
  authority = authority;
}

-- The alternatives of the third group.
unfoldable pub is_account : Text → Bool
unfolding text_eq
is_account s =
    text_eq s (codes "DIRECT")
    || text_eq s (codes "RESELLER")
    || text_eq s (codes "direct")
    || text_eq s (codes "reseller")

abbrev pub bind_option {ℓ κ} : {A : Type ℓ} {B : Type κ} → Option A → (A → Option B) → Option B
bind_option none f = none
bind_option (some a) f = f a

-- `([^,\s]+)`: the longest run, which must not be empty, with what follows it.
abbrev pub field_with : Text → Text → Option (Text × Text)
field_with [] rest = none
field_with (c ∷ run) rest = some (c ∷ run, rest)

unfoldable pub take_field : Text → Option (Text × Text)
unfolding take_while drop_while is_field_char
take_field s = field_with (take_while is_field_char s) (drop_while is_field_char s)

-- `,\s*`.
unfoldable pub take_comma : Text → Option Text
unfolding drop_while is_re_space
take_comma [] = none
take_comma (c ∷ s) = if c == b',' then some (drop_while is_re_space s) else none

-- `$`, giving the fourth group that was matched before it.
abbrev pub at_end : Text → Text → Option Text
at_end authority [] = some authority
at_end authority (c ∷ s) = none

-- `\s*$`.
unfoldable pub finish : Text → Text → Option Text
unfolding drop_while is_re_space
finish authority s = at_end authority (drop_while is_re_space s)

-- `(?:,\s*([^,\s]+))?\s*$`.
unfoldable pub take_authority : Text → Option Text
take_authority s = elim (take_comma s) [
  | none ↦ finish [] s
  | some rest ↦ bind_option (take_field rest) (λ p. finish p.0 p.1)
]

-- `FindStringSubmatch` of `validLineRegex`.
unfoldable pub match_line : Text → Option Matches
match_line line = bind_option (take_field line) λ exchange.
    bind_option (take_comma exchange.1) λ after_exchange.
      bind_option (take_field after_exchange) λ publisher.
        bind_option (take_comma publisher.1) λ after_publisher.
          bind_option (take_field after_publisher) λ account.
            if is_account account.0
            then bind_option (take_authority account.1)
                (λ authority. some (matches_of exchange.0 publisher.0 account.0 authority))
            else none

-- `[a-zA-Z0-9]` and `[a-zA-Z0-9\-]`.
unfoldable pub is_alnum : ℕ → Bool
is_alnum c = (leb b'a' c && leb c b'z') || (leb b'A' c && leb c b'Z') || (leb b'0' c && leb c b'9')

unfoldable pub is_label_char : ℕ → Bool
unfolding is_alnum
is_label_char c = is_alnum c || c == b'-'

-- `[a-zA-Z0-9]([a-zA-Z0-9\-]{0,61}[a-zA-Z0-9])?`.
abbrev pub first_is : (ℕ → Bool) → Text → Bool
first_is p [] = false
first_is p (c ∷ s) = p c

unfoldable pub is_label : Text → Bool
is_label s =
    first_is is_alnum s && first_is is_alnum (reverse s) && all is_label_char s && leb (length s) 63

-- `MatchString` of `domainRegex`: labels with a dot between them.
unfoldable pub match_domain : Text → Bool
match_domain s = all is_label (split b'.' s)

unfoldable pub is_valid_domain : Text → Bool
is_valid_domain domain =
    if text_eq domain [] || ltb 253 (byte_len domain)
    then false
    else let bare = trim_suffix (codes ".") domain in
      if not (contains (codes ".") bare) || leb (byte_len bare) 1 then false else match_domain bare

abbrev pub format_error : Text → GoError
format_error detail =
    wrapped (codes "invalid ads.txt format" ++ codes ": " ++ detail) invalid_ads_txt_format

-- An entry added to those of the lines behind it, or nothing for a line that does not parse.
abbrev pub add_entry : Result AdsTxtEntry → List AdsTxtEntry → List AdsTxtEntry
add_entry (ok entry) entries = entry ∷ entries
add_entry (err _) entries = entries

-- The result of `Parse` from the entries that the loop collected.
abbrev pub non_empty : List AdsTxtEntry → Result (List AdsTxtEntry)
non_empty [] = err (format_error (codes "no valid entries found"))
non_empty (entry ∷ entries) = ok (entry ∷ entries)

-- The domain check of `parseLine`.
unfoldable pub checked_entry : AdsTxtEntry → Result AdsTxtEntry
checked_entry entry =
    if is_valid_domain entry.exchange_domain
    then ok entry
    else err (format_error (codes "invalid exchange domain: " ++ entry.exchange_domain))

-- The parser over the case tables that `strings.ToLower` and `strings.ToUpper` read.
module _ (table : CaseTable) where
  -- The entry that a match gives.
  unfoldable pub entry_of : Matches → AdsTxtEntry
  entry_of m = record {
    exchange_domain = to_lower table (trim_space m.exchange);
    publisher_id = trim_space m.publisher;
    account_type = to_upper table (trim_space m.account);
    certification_auth = if text_eq m.authority [] then [] else trim_space m.authority;
  }

  unfoldable pub parse_line : Text → Result AdsTxtEntry
  parse_line line = elim (match_line line) [
    | none ↦ err (format_error (codes "invalid line format: " ++ line))
    | some m ↦ checked_entry (entry_of m)
  ]

  -- The loop of `Parse` over the lines.
  unfoldable pub parse_lines : List Text → List AdsTxtEntry
  parse_lines [] = []
  parse_lines (raw ∷ lines) =
      let line = trim_space raw in
      let entries = parse_lines lines in
      if text_eq line [] || has_prefix (codes "#") line
      then entries
      else add_entry (parse_line line) entries

  unfoldable pub parse : Text → Result (List AdsTxtEntry)
  parse content =
      if text_eq content []
      then err (format_error (codes "empty content"))
      else non_empty (parse_lines (split 10 content))
