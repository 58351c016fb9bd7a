-- ===== src/Analysis/Examples.antt =====
-- Runs of internal/domainAnalysis/analysis.go, and the theorems on the service at them.
use mathlib.Core.List.Perm
use perion_assignment.Common.{
  ℕ, ◌+◌, ◌≡◌, refl, ◌↔◌, true, false, List, [], ◌∷◌, length, sum_of, pos, length,
}
use perion_assignment.Text.{Text, codes}
use perion_assignment.Dict.{Dict, get}
use perion_assignment.Models.{AdvertiserInfo, DomainAnalysis, DomainResult, AdsTxtEntry}
use perion_assignment.Models.Errors.{
  GoError, domain_not_found, domain_error, Result, ok, err, ◌>>=◌,
}
use perion_assignment.Cache.{MemoryCache, new_memory_cache, memory_get, is_expired}
use perion_assignment.Cache.DomainCache.{get_analysis, set_analysis, read_value}
use perion_assignment.Cache.DomainCache.Laws.{over_memory}
use perion_assignment.Analysis.{aggregate_results}
use perion_assignment.Analysis.Sort.{IsSorted}
use perion_assignment.Analysis.Build.{IsOrder}
use perion_assignment.Analysis.Aggregate.{successes, count_in, counted, aggregate_results_lem}
use perion_assignment.Analysis.Aggregate.Arrival.{digest, digest-Perm}
use perion_assignment.Analysis.Service.{
  World, Clock, analyze_domain, on_asked, on_fetched, on_parsed,
}
use perion_assignment.Analysis.Service.Outcomes.{Fails, analyze_domain-Fails, memory_parts}

-- A runtime that visits a map in the order of its insertions.
abbrev in_order : Dict ℕ → List (Text × ℕ)
in_order m = m

in_order-IsOrder : IsOrder in_order
in_order-IsOrder m = Perm.refl m

abbrev ads : Text → AdsTxtEntry
ads domain = record {
  exchange_domain = domain;
  publisher_id = codes "7";
  account_type = codes "DIRECT";
  certification_auth = [];
}

abbrev advertiser : Text → ℕ → AdvertiserInfo
advertiser domain count = record { domain = domain; count = count }

abbrev three : List AdvertiserInfo
three = advertiser (codes "b") 1 ∷ advertiser (codes "c") 2 ∷ advertiser (codes "a") 1 ∷ []

abbrev two : List AdsTxtEntry
two = ads (codes "a.com") ∷ ads (codes "b.com") ∷ []

abbrev succeeded : Text → List AdvertiserInfo → DomainResult
succeeded domain advertisers = record {
  domain = domain;
  total_advertisers = sum_of (λ a. a.count) advertisers;
  advertisers = advertisers;
  cached = false;
  error = [];
  success = true;
  timestamp = 1;
}

abbrev failed : Text → DomainResult
failed domain = record {
  domain = domain;
  total_advertisers = 0;
  advertisers = [];
  cached = false;
  error = codes "no file";
  success = false;
  timestamp = 2;
}

abbrev arrived : List DomainResult
arrived =
    succeeded (codes "x.org") three ∷ failed (codes "y.org") ∷ succeeded (codes "z.org") three ∷ []

abbrev arrived_swapped : List DomainResult
arrived_swapped =
    failed (codes "y.org") ∷ succeeded (codes "x.org") three ∷ succeeded (codes "z.org") three ∷ []

aggregate_results_lem_example :
    (let r = aggregate_results in_order 9 3 arrived in
      (r.summary.total ≡ 3)
      × (r.summary.succeeded ≡ successes arrived)
      × (r.summary.succeeded + r.summary.failed ≡ length arrived)
      × ((d : Text) → count_in d r.advertisers ≡ counted (count_in d) arrived)
      × (r.total_advertisers ≡ counted (sum_of (λ a. a.count)) arrived)
      × IsSorted r.advertisers)
aggregate_results_lem_example = aggregate_results_lem in_order in_order-IsOrder 9 3 arrived

digest-Perm_example : digest in_order 9 3 arrived ≡ digest in_order 9 3 arrived_swapped
digest-Perm_example =
    digest-Perm in_order in_order in_order-IsOrder in_order-IsOrder 9 3 arrived arrived_swapped
      (Perm.swap _ _ _)

-- A parser and fetchers for the service.
abbrev parse_two : Text → Result (List AdsTxtEntry)
parse_two content = ok two

abbrev found : Text → Result Text
found domain = ok (codes "a file")

abbrev lost : Text → Result Text
lost domain = err domain_not_found

abbrev no_json : Text → Result DomainAnalysis
no_json content = err domain_not_found

abbrev world : World MemoryCache
world = record { cache = new_memory_cache; heap = []; log = [] }

abbrev first : Clock
first = record { asked = 1; built = 2; stored = 3 }

-- What the runs of the service unfold.
service : Unit {0}
unfolding get_analysis set_analysis read_value memory_get is_expired new_memory_cache get
    analyze_domain on_asked on_fetched on_parsed
service = tt

analyze_domain-Fails_example :
    Fails
      (analyze_domain
        (memory_parts parse_two lost in_order no_json (pos 100))
        first
        (codes "x.org")
        world).1
    ↔ (Fails (get_analysis (over_memory no_json (pos 100)) 1 (codes "x.org") world.cache world.heap)
        × Fails (lost (codes "x.org") >>= parse_two))
analyze_domain-Fails_example =
    analyze_domain-Fails (memory_parts parse_two lost in_order no_json (pos 100)) first
      (codes "x.org") world

abbrev lost_error : GoError
lost_error = domain_error (codes "x.org") (codes "failed to fetch ads.txt") domain_not_found

loses :
    (analyze_domain
      (memory_parts parse_two lost in_order no_json (pos 100))
      first
      (codes "x.org")
      world).1
    ≡ err lost_error
unfolding service
loses = refl

finds :
    (analyze_domain
      (memory_parts parse_two found in_order no_json (pos 100))
      first
      (codes "x.org")
      world).1
    ≡ ok 0
unfolding service
finds = refl
