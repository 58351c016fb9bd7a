-- ===== src/Analysis.antt =====
-- internal/domainAnalysis/analysis.go: the advertisers of one domain, and the answer to a batch of
-- domains. `range` over a Go map visits the entries in an order that the runtime chooses: the
-- definitions take that order as an argument, a function from a map to a list of its entries.
pub mod Sort
pub mod Build
pub mod Aggregate
pub mod Service
pub mod Batch
pub mod Shared
mod Examples
use Prim.Native.String.{String}
use perion_assignment.Common.{
  ℕ, zero, suc, ◌+◌, Bool, true, false, List, [], ◌∷◌, ◌++◌, map, if◌then◌else◌, ltb, ◌==◌, sum_of,
}
use perion_assignment.Text.{Text, text_lt}
use perion_assignment.Dict.{Dict, add_at}
use perion_assignment.Dict.Counts.{total}
use perion_assignment.Models.{
  AdvertiserInfo, DomainAnalysis, DomainResult, BatchSummary, BatchAnalysisResponse, AdsTxtEntry,
}
use perion_assignment.Parser.Count.{count_advertisers}

-- The comparison that both calls of `sort.Slice` are given.
unfoldable pub less : AdvertiserInfo → AdvertiserInfo → Bool
less a b = if a.count == b.count then text_lt a.domain b.domain else ltb b.count a.count

-- `sort.Slice` by that comparison. The package's algorithm is not modelled: Analysis/Sort.antt is about
-- every ordered rearrangement of the list.
unfoldable pub insert_sorted : AdvertiserInfo → List AdvertiserInfo → List AdvertiserInfo
insert_sorted a [] = a ∷ []
insert_sorted a (b ∷ rest) =
    let later = insert_sorted a rest in if less b a then b ∷ later else a ∷ b ∷ rest

unfoldable pub sort_slice : List AdvertiserInfo → List AdvertiserInfo
sort_slice [] = []
sort_slice (a ∷ rest) = insert_sorted a (sort_slice rest)

abbrev pub info : Text × ℕ → AdvertiserInfo
info (domain, count) = record { domain = domain; count = count }

-- The loop over a map of counts, and the sort behind it.
unfoldable pub sorted_infos : List (Text × ℕ) → List AdvertiserInfo
sorted_infos entries = sort_slice (map info entries)

-- `buildAnalysis`, for an order of the map and a time.
unfoldable pub build_analysis :
    (order : Dict ℕ → List (Text × ℕ)) → (now : ℕ) → Text → List AdsTxtEntry → DomainAnalysis
build_analysis order now domain entries =
    let visited = order (count_advertisers entries) in
    record {
      domain = domain;
      total_advertisers = sum_of (λ e. e.1) visited;
      advertisers = sorted_infos visited;
      cached = false;
      timestamp = now;
    }

-- What `aggregateResults` has gathered after some results.
pub record Gathered : Type 0 where
  pub counts : Dict ℕ
  pub summary : BatchSummary

-- `advertiserCounts[advertiser.Domain] += advertiser.Count` for each advertiser of a result.
unfoldable pub add_all : List AdvertiserInfo → Dict ℕ → Dict ℕ
add_all [] counts = counts
add_all (a ∷ rest) counts = add_all rest (add_at a.domain a.count counts)

-- One round of the loop over the results channel.
unfoldable pub gather : DomainResult → Gathered → Gathered
gather result g =
    if result.success
    then record {
      counts = add_all result.advertisers g.counts;
      summary = record g.summary { succeeded = g.summary.succeeded + 1 };
    }
    else record g { summary = record g.summary { failed = g.summary.failed + 1 } }

unfoldable pub gather_all : List DomainResult → Gathered → Gathered
gather_all [] g = g
gather_all (result ∷ results) g = gather_all results (gather result g)

-- `aggregateResults`, for the results in the order in which they arrive.
unfoldable pub aggregate_results :
    (order : Dict ℕ → List (Text × ℕ))
    → (now total_domains : ℕ) → List DomainResult
    → BatchAnalysisResponse
aggregate_results order now total_domains arrived =
    let g = gather_all arrived (record {
      counts = [];
      summary = record { total = total_domains; succeeded = 0; failed = 0 };
    }) in
    let visited = order g.counts in
    record {
      results = arrived;
      summary = g.summary;
      advertisers = sorted_infos visited;
      total_advertisers = sum_of (λ e. e.1) visited;
      timestamp = now;
    }
