-- ===== src/Analysis/Service.antt =====
-- `AnalyzeDomain` of internal/domainAnalysis/analysis.go. The parser and the fetcher are the
-- functions behind their interfaces; the clock is read before the cache, when the analysis is built
-- and when it is cached.
pub mod Outcomes
use Prim.Native.String.{String}
use perion_assignment.Common.{
  ℕ, zero, suc, ◌+◌, Bool, true, false, Option, none, some, List, [], ◌∷◌, ◌++◌, ℤ, pos,
  if◌then◌else◌,
}
use perion_assignment.Text.{Text, codes}
use perion_assignment.Dict.{Dict}
use perion_assignment.Models.{DomainAnalysis, AdsTxtEntry, DomainResult}
use perion_assignment.Models.Errors.{GoError, domain_error, error_text, Result, ok, err}
use perion_assignment.Models.Heap.{Heap, load, store, allocate}
use perion_assignment.Models.Log.{LogCall, low, medium, log_info, log_success, log_error}
use perion_assignment.Cache.DomainCache.{DomainCache, get_analysis, set_analysis}
use perion_assignment.Analysis.{build_analysis}

-- The parts that the service is given, with the order in which the runtime visits a map.
pub record Parts (S : Type 0) : Type 0 where
  pub parse : Text → Result (List AdsTxtEntry)
  pub fetch : Text → Result Text
  pub domain_cache : DomainCache S
  pub order : Dict ℕ → List (Text × ℕ)

-- The state that a call changes.
pub record World (S : Type 0) : Type 0 where
  pub cache : S
  pub heap : Heap
  pub log : List LogCall

pub record Clock : Type 0 where
  pub asked : ℕ
  pub built : ℕ
  pub stored : ℕ

-- `cached.Cached = true`.
abbrev pub flagged : Option DomainAnalysis → ℕ → Heap → Heap
flagged none a heap = heap
flagged (some d) a heap = store a (record d { cached = true }) heap

unfoldable pub mark_cached : ℕ → Heap → Heap
mark_cached a heap = flagged (load a heap) a heap

module _ {S : Type 0} where
  abbrev pub logged : LogCall → World S → World S
  logged call w = record w { log = w.log ++ call ∷ [] }

  -- The branch of a cache hit.
  unfoldable pub on_hit : Text → ℕ → World S → World S × Result ℕ
  on_hit domain a w =
      let w' =
        logged (log_success (codes "cache_hit") domain (codes "Retrieved analysis from cache")) w in
      (record w' { heap = mark_cached a w.heap }, ok a)

  -- What the cache answers to the new analysis, which does not fail the request.
  unfoldable pub on_cached : Text → World S → Result S → World S
  on_cached domain w (ok cache) = record w { cache = cache }
  on_cached domain w (err e) =
      logged (log_error (codes "cache_set") domain (codes "Failed to cache analysis result") e low)
        w

  module _ (parts : Parts S) where
    -- From the entries on: the analysis is built, cached and returned.
    unfoldable pub on_parsed :
        Clock → Text → World S → Result (List AdsTxtEntry) → World S × Result ℕ
    on_parsed clock domain w (err e) = (
      logged (log_error (codes "parse_ads_txt") domain (codes "Failed to parse ads.txt") e medium)
          w,
      err (domain_error domain (codes "failed to parse ads.txt") e),
    )
    on_parsed clock domain w (ok entries) =
        let parsed =
          logged (log_success (codes "parse_ads_txt") domain (codes "Successfully parsed ads.txt"))
            w in
        let (heap, a) = allocate (build_analysis parts.order clock.built domain entries) w.heap in
        let cached =
          on_cached domain (record parsed { heap = heap })
            (set_analysis parts.domain_cache clock.stored domain a (pos 0) heap w.cache) in
        (
          logged
              (log_success (codes "domain_analysis") domain
                (codes "Successfully completed domain analysis"))
              cached,
          ok a,
        )

    -- From the fetched content on.
    unfoldable pub on_fetched : Clock → Text → World S → Result Text → World S × Result ℕ
    on_fetched clock domain w (err e) = (
      logged (log_error (codes "fetch_ads_txt") domain (codes "Failed to fetch ads.txt") e medium)
          w,
      err (domain_error domain (codes "failed to fetch ads.txt") e),
    )
    on_fetched clock domain w (ok content) =
        on_parsed clock domain
          (logged
            (log_success (codes "fetch_ads_txt") domain (codes "Successfully fetched ads.txt")) w)
          (parts.parse content)

    -- What the domain cache answers.
    unfoldable pub on_asked : Clock → Text → World S → Result (Heap × ℕ) → World S × Result ℕ
    on_asked clock domain w (ok (heap, a)) = on_hit domain a (record w { heap = heap })
    on_asked clock domain w (err e) =
        on_fetched clock domain
          (logged (log_info (codes "cache_miss") (codes "Cache miss for domain: " ++ domain)) w)
          (parts.fetch domain)

    -- `AnalyzeDomain`.
    unfoldable pub analyze_domain : Clock → Text → World S → World S × Result ℕ
    analyze_domain clock domain w =
        on_asked clock domain w (get_analysis parts.domain_cache clock.asked domain w.cache w.heap)
