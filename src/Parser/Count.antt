-- ===== src/Parser/Count.antt =====
-- `CountAdvertisers` of internal/parser/adstxt.go.
use perion_assignment.Common.{ℕ, ◌+◌, ◌<◌, ◌≡◌, ◌∙◌, List, [], ◌∷◌, if◌then◌else◌, arith, length}
use perion_assignment.Text.{Text, text_eq}
use perion_assignment.Dict.{Dict, get, IsDict, at, add_at}
use perion_assignment.Dict.Laws.{AllValues}
use perion_assignment.Dict.Counts.{total, at-add_at, total-add_at, add_at-IsDict, add_at-positive}
use perion_assignment.Models.{AdsTxtEntry}

-- The loop of `CountAdvertisers`.
unfoldable pub count_from : Dict ℕ → List AdsTxtEntry → Dict ℕ
count_from counts [] = counts
count_from counts (entry ∷ entries) = count_from (add_at entry.exchange_domain 1 counts) entries

unfoldable pub count_advertisers : List AdsTxtEntry → Dict ℕ
unfolding count_from
count_advertisers entries = count_from [] entries

-- How many entries name a domain.
unfoldable pub occurrences : Text → List AdsTxtEntry → ℕ
occurrences d [] = 0
occurrences d (entry ∷ entries) =
    (if text_eq entry.exchange_domain d then 1 else 0) + occurrences d entries

at-count_from :
    (d : Text) (counts : Dict ℕ) (entries : List AdsTxtEntry)
    → at d (count_from counts entries) ≡ at d counts + occurrences d entries
unfolding count_from occurrences
at-count_from d counts [] = omega arith
at-count_from d counts (entry ∷ entries) = omega (
  arith,
  at-count_from d (add_at entry.exchange_domain 1 counts) entries,
  at-add_at d entry.exchange_domain 1 counts,
)

total-count_from :
    (counts : Dict ℕ) (entries : List AdsTxtEntry)
    → total (count_from counts entries) ≡ total counts + length entries
unfolding count_from
total-count_from counts [] = omega arith
total-count_from counts (entry ∷ entries) = omega (
  arith,
  total-count_from (add_at entry.exchange_domain 1 counts) entries,
  total-add_at entry.exchange_domain 1 counts,
)

count_from-IsDict :
    (counts : Dict ℕ) (entries : List AdsTxtEntry)
    → IsDict counts
    → AllValues (λ n. 0 < n) counts
    → IsDict (count_from counts entries) × AllValues (λ n. 0 < n) (count_from counts entries)
unfolding count_from
count_from-IsDict counts [] h p = (h, p)
count_from-IsDict counts (entry ∷ entries) h p =
    count_from-IsDict (add_at entry.exchange_domain 1 counts) entries
      (add_at-IsDict entry.exchange_domain 1 counts h)
      (add_at-positive entry.exchange_domain 1 counts (omega arith) p)

-- The map of `CountAdvertisers` has each of its keys once and no zero; a domain's count is the number
-- of entries that name it, and the counts add up to the number of entries.
pub count_advertisers_lem :
    (entries : List AdsTxtEntry)
    → IsDict (count_advertisers entries)
      × AllValues (λ n. 0 < n) (count_advertisers entries)
      × ((d : Text) → at d (count_advertisers entries) ≡ occurrences d entries)
      × (total (count_advertisers entries) ≡ length entries)
unfolding count_advertisers
count_advertisers_lem entries =
    let (dict, positive) = count_from-IsDict [] entries tt tt in
    (
      dict,
      positive,
      (λ d. at-count_from d [] entries ∙ empty_at d entries),
      total-count_from [] entries ∙ omega arith,
    )
  where
    empty_at : (d : Text) (es : List AdsTxtEntry) → at d [] + occurrences d es ≡ occurrences d es
    empty_at d es = unfold at get in omega arith
