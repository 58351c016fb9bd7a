-- ===== src/Parser/Examples.antt =====
-- Runs of internal/parser/adstxt.go, and the theorems on the parser at them.
use perion_assignment.Common.{
  ◌≡◌, refl, ◌↔◌, ◌≢◌, inl, inr, true, false, List, [], ◌∷◌, map, some, none,
}
use perion_assignment.Text.{
  Text, codes, CaseTable, take_while, drop_while, is_space, trim_space, has_prefix, drop_as,
  trim_prefix, trim_suffix, contains, split, text_eq, rune_len, byte_len, lower_rune, upper_rune,
  to_lower, to_upper,
}
use perion_assignment.Text.Split.{join}
use perion_assignment.Models.{AdsTxtEntry}
use perion_assignment.Models.Errors.{ok}
use perion_assignment.Parser.{
  is_re_space, is_field_char, take_field, take_comma, is_account, take_authority, finish, is_alnum,
  is_label_char, is_label, entry_of, checked_entry, parse_lines, Matches, matches_of, match_line,
  is_valid_domain, match_domain, parse_line, parse,
}
use perion_assignment.Parser.Line.{IsMatch}
use perion_assignment.Parser.Line.Decides.{match_line_iff}
use perion_assignment.Parser.Domain.Valid.{IsDomain, is_valid_domain_iff}
use perion_assignment.Parser.Lines.{Reads, parse_iff}
use perion_assignment.Parser.RoundTrip.{render, IsCanonical, parse-render}

-- What the runs unfold.
scanners : Unit {0}
unfolding take_while drop_while is_space trim_space has_prefix drop_as trim_prefix trim_suffix
    contains split text_eq rune_len byte_len lower_rune upper_rune to_lower to_upper is_re_space
    is_field_char take_field take_comma is_account take_authority finish match_line is_alnum
    is_label_char is_label match_domain is_valid_domain entry_of checked_entry parse_line
    parse_lines parse join
scanners = tt

-- Case tables that leave everything above ASCII as it is.
abbrev plain_table : CaseTable
plain_table = record { lower_wide = λ c. c; upper_wide = λ c. c }

abbrev google_line : Text
google_line = codes "Google.com, pub-1,direct, f08c"

abbrev google_matches : Matches
google_matches = matches_of (codes "Google.com") (codes "pub-1") (codes "direct") (codes "f08c")

abbrev google : AdsTxtEntry
google = record {
  exchange_domain = codes "google.com";
  publisher_id = codes "pub-1";
  account_type = codes "DIRECT";
  certification_auth = codes "f08c";
}

abbrev criteo : AdsTxtEntry
criteo = record {
  exchange_domain = codes "criteo.net";
  publisher_id = codes "7";
  account_type = codes "RESELLER";
  certification_auth = [];
}

abbrev file_lines : List Text
file_lines =
    codes "# ours"
    ∷ codes "Google.com, pub-1, direct, f08c"
    ∷ codes "no entry"
    ∷ codes "criteo.net,7,RESELLER"
    ∷ []

runs :
    (match_line google_line ≡ some google_matches)
    × (match_line (codes "a.b,1,Direct") ≡ none)
    × (is_valid_domain (codes "a-b.example.com.") ≡ true)
    × (is_valid_domain (codes "localhost") ≡ false)
    × (is_valid_domain (codes "a..b") ≡ false)
    × (is_valid_domain (codes "-a.b") ≡ false)
    × (parse plain_table (join 10 file_lines) ≡ ok (google ∷ criteo ∷ []))
unfolding scanners
runs = (refl, refl, refl, refl, refl, refl, refl)

match_line_iff_example :
    (match_line google_line ≡ some google_matches) ↔ IsMatch google_line google_matches
match_line_iff_example = match_line_iff google_line google_matches

is_valid_domain_iff_example :
    (is_valid_domain (codes "a-b.example.com.") ≡ true) ↔ IsDomain (codes "a-b.example.com.")
is_valid_domain_iff_example = is_valid_domain_iff (codes "a-b.example.com.")

parse_iff_example :
    (parse plain_table (join 10 file_lines) ≡ ok (google ∷ criteo ∷ []))
    ↔ ((google ∷ criteo ∷ [] ≢ []) × Reads plain_table file_lines (google ∷ criteo ∷ []))
parse_iff_example =
    parse_iff plain_table file_lines (google ∷ criteo ∷ []) (cc) (refl, (refl, (refl, (refl, tt))))

google-IsCanonical : IsCanonical plain_table google
unfolding scanners
google-IsCanonical = record {
  domain = (is_valid_domain_iff google.exchange_domain).0 refl;
  lower = refl;
  publisher = (((λ h. cc), refl), (refl, refl));
  account = inl refl;
  authority = inr (((λ h. cc), refl), (refl, refl));
}

parse-render_example : parse plain_table (join 10 (map render (google ∷ []))) ≡ ok (google ∷ [])
parse-render_example = parse-render plain_table (google ∷ []) (cc) (google-IsCanonical, tt)
