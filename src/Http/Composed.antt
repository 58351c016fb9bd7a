-- ===== src/Http/Composed.antt =====
-- The handlers of internal/http/handlers.go over `AnalyzeDomain` of
-- internal/domainAnalysis/analysis.go, the domain cache and the cache in memory.
pub mod Batch
use Prim.Native.String.{String}
use perion_assignment.Common.{
  ℕ, ◌+◌, ◌≤◌, ◌≡◌, refl, ◌∙◌, ap, sym, ◌≢◌, Bool, true, false, ◌||◌, Option, none, some, List, [],
  ◌∷◌, ◌++◌, ℤ, not_positive, magnitude, arith, if◌then◌else◌, inl, inr, Bool-cases,
}
use perion_assignment.Text.{Text, codes, contains}
use perion_assignment.Dict.{Dict}
use perion_assignment.Models.{DomainAnalysis, BatchAnalysisResponse, AdsTxtEntry}
use perion_assignment.Models.Heap.{Heap, load}
use perion_assignment.Models.Errors.{GoError, plain, error_text, Result, ok, err, Result-cases}
use perion_assignment.Models.Log.{LogCall, log_info}
use perion_assignment.Cache.{MemoryCache}
use perion_assignment.Cache.DomainCache.{get_analysis}
use perion_assignment.Cache.DomainCache.Laws.{over_memory}
use perion_assignment.Analysis.Service.{Parts, World, Clock, analyze_domain}
use perion_assignment.Analysis.Service.Outcomes.{Fails, memory_parts, analyze_domain-again}
use perion_assignment.Http.{
  Body, analysis_response, Request, Served, AnalysisService, get_status_code_for_error,
  write_json_response, write_error_response, on_analysis, analyze_single_domain,
}

-- What the pointer that the service answers holds when the handler encodes it.
abbrev pub loaded : Option DomainAnalysis → Result DomainAnalysis
loaded (some d) = ok d
loaded none = err (plain (codes "nil analysis"))

abbrev pub answer_of : {S : Type 0} → World S × Result ℕ → World S × Result DomainAnalysis
answer_of (w, err e) = (w, err e)
answer_of (w, ok a) = (w, loaded (load a w.heap))

-- The service behind the handlers, with the clock of a call; its batches are an argument.
abbrev pub service_of :
    {S : Type 0}
    → Parts S
    → (List Text → World S → World S × Result BatchAnalysisResponse)
    → Clock
    → AnalysisService (World S)
service_of parts batches clock = record {
  analyze_domain = λ domain w. answer_of (analyze_domain parts clock domain w);
  analyze_domains = batches;
}

not_200 : (e : GoError) → get_status_code_for_error e ≢ 200
unfolding get_status_code_for_error
not_200 e h = ground arith

-- The response to an analysis.
abbrev pub Answered : {S : Type 0} → Served S → DomainAnalysis → Type 0
Answered served d = (served.response.status ≡ 200) × (served.response.body ≡ analysis_response d)

ok-inj : {a b : ℕ} → Path (Result ℕ) (ok a) (ok b) → a ≡ b
ok-inj h = cc

on_analysis-Answered :
    {S : Type 0} (r : Request) (domain : Text) (log : List LogCall) (y : World S × Result ℕ) (a : ℕ)
    (d : DomainAnalysis)
    → y.1 ≡ ok a
    → load a y.0.heap ≡ some d
    → Answered (on_analysis r domain log (answer_of y)) d
unfolding on_analysis write_json_response
on_analysis-Answered r domain log (w, ok b) a d e h = rw (ok-inj e, h) (refl, refl)
on_analysis-Answered r domain log (w, err b) a d e h = absurd (cc e)

-- A response of 200 is an analysis that succeeded.
on_analysis-ok :
    {S : Type 0} (r : Request) (domain : Text) (log : List LogCall) (y : World S × Result ℕ)
    → (on_analysis r domain log (answer_of y)).response.status ≡ 200
    → (a : ℕ) × (y.1 ≡ ok a)
unfolding on_analysis write_error_response write_json_response
on_analysis-ok r domain log (w, ok a) h = (a, refl)
on_analysis-ok r domain log (w, err e) h = absurd (not_200 e h)

-- The state behind a handler is the one that the service left.
on_analysis-service :
    {S : Type 0} (r : Request) (domain : Text) (log : List LogCall) (y : World S × Result ℕ)
    → (on_analysis r domain log (answer_of y)).service ≡ y.0
unfolding on_analysis write_error_response write_json_response
on_analysis-service r domain log (w, err e) = refl
on_analysis-service r domain log (w, ok a) = go (load a w.heap)
  where
    go : (found : Option DomainAnalysis) → (on_analysis r domain log (w, loaded found)).service ≡ w
    go none = refl
    go (some d) = refl

module _ (parse : Text → Result (List AdsTxtEntry)) (order : Dict ℕ → List (Text × ℕ))
    (unmarshal : Text → Result DomainAnalysis) (ttl : ℤ)
    (batches : List Text
      → World MemoryCache
      → World MemoryCache × Result BatchAnalysisResponse) where
  abbrev pub asks_for :
      (fetch : Text → Result Text)
      → Clock
      → Request
      → Text
      → World MemoryCache
      → Served (World MemoryCache)
  asks_for fetch clock r domain w =
      analyze_single_domain
        (service_of (memory_parts parse fetch order unmarshal ttl) batches clock) r domain w

  -- With the cache in memory and a positive time to live: after a request for the analysis of a domain
  -- that the cache missed and that was answered with 200, a second one for the same domain before the
  -- time to live is over is answered with 200, whatever its fetcher would do, and with the analysis of
  -- the first one, which said that it was not cached and now says that it is.
  pub asks_for-again :
      (fetch fetch' : Text → Result Text) (first second : Clock) (r r' : Request) (c : ℕ)
      (rest : Text) (w : World MemoryCache)
      → not_positive ttl ≡ false
      → Fails (get_analysis (over_memory unmarshal ttl) first.asked (c ∷ rest) w.cache w.heap)
      → (asks_for fetch first r (c ∷ rest) w).response.status ≡ 200
      → second.asked ≤ first.stored + magnitude ttl
      → (let one = asks_for fetch first r (c ∷ rest) w in
          let two = asks_for fetch' second r' (c ∷ rest) one.service in
          (d : DomainAnalysis) × (d.cached ≡ false)
          × Answered one d
          × Answered two (record d { cached = true }))
  unfolding analyze_single_domain
  asks_for-again fetch fetch' first second r r' c rest w positive miss done in_time =
      let y = analyze_domain (memory_parts parse fetch order unmarshal ttl) first (c ∷ rest) w in
      let (a, e) = on_analysis-ok r (c ∷ rest) _ y done in
      let (same, (d, here, fresh, marked)) =
        analyze_domain-again parse order unmarshal ttl fetch fetch' first second (c ∷ rest) w a
          positive miss e in_time in
      rw (on_analysis-service r (c ∷ rest) _ y) (
        d,
        fresh,
        on_analysis-Answered r (c ∷ rest) _ y a d e here,
        on_analysis-Answered r' (c ∷ rest) _ _ a _ same marked,
      )
