-- ===== src/Analysis/Shared.antt =====
-- Calls of `AnalyzeDomain` of internal/domainAnalysis/analysis.go that run at the same time, of one
-- batch or of several requests, as steps in any order over the cache and the analyses that they
-- share. What each call of the fetcher answers is part of its step, so that a context that ends is an
-- error of the fetcher.
pub mod Grows
pub mod Sound
pub mod Answers
pub mod Alone
pub mod Totals
mod Examples
use Prim.Native.String.{String}
use perion_assignment.Common.{ℕ, zero, suc, Option, none, some, List, [], ◌∷◌, ◌++◌, pos, ◌≡◌}
use perion_assignment.Text.{Text, codes}
use perion_assignment.Models.{DomainAnalysis, AdsTxtEntry}
use perion_assignment.Models.Errors.{GoError, domain_error, Result, ok, err}
use perion_assignment.Models.Heap.{Heap, load, allocate}
use perion_assignment.Models.Log.{LogCall, low, medium, log_info, log_success, log_error}
use perion_assignment.Cache.DomainCache.{get_analysis, set_analysis}
use perion_assignment.Analysis.{build_analysis}
use perion_assignment.Analysis.Service.{Parts, World, Clock, logged, mark_cached, on_cached}

-- How far a call is: it asks the cache; it has a pointer from the cache to mark; it fetches; it parses
-- a content; it builds and stores an analysis; it has answered with a pointer or an error.
pub data Phase : Type 0 where
  asks : Phase
  marks : (address : ℕ) → Phase
  fetches : Phase
  parses : (content : Text) → Phase
  stores : List AdsTxtEntry → Phase
  holds : (address : ℕ) → Phase
  failed : GoError → Phase

pub record Call : Type 0 where
  pub domain : Text
  pub phase : Phase

-- The clock and the fetcher at a step.
pub record Input : Type 0 where
  pub clock : Clock
  pub fetch : Text → Result Text

module _ {S : Type 0} (parts : Parts S) where
  -- The answer of the domain cache, with its log call.
  unfoldable pub on_looked : Text → World S → Result (Heap × ℕ) → Phase × World S
  on_looked domain w (ok (heap, a)) = (
    marks a,
    logged (log_success (codes "cache_hit") domain (codes "Retrieved analysis from cache"))
        (record w { heap = heap }),
  )
  on_looked domain w (err e) = (
    fetches,
    logged (log_info (codes "cache_miss") (codes "Cache miss for domain: " ++ domain)) w,
  )

  unfoldable pub on_content : Text → World S → Result Text → Phase × World S
  on_content domain w (ok content) = (
    parses content,
    logged (log_success (codes "fetch_ads_txt") domain (codes "Successfully fetched ads.txt")) w,
  )
  on_content domain w (err e) = (
    failed (domain_error domain (codes "failed to fetch ads.txt") e),
    logged (log_error (codes "fetch_ads_txt") domain (codes "Failed to fetch ads.txt") e medium) w,
  )

  unfoldable pub on_entries : Text → World S → Result (List AdsTxtEntry) → Phase × World S
  on_entries domain w (ok entries) = (
    stores entries,
    logged (log_success (codes "parse_ads_txt") domain (codes "Successfully parsed ads.txt")) w,
  )
  on_entries domain w (err e) = (
    failed (domain_error domain (codes "failed to parse ads.txt") e),
    logged (log_error (codes "parse_ads_txt") domain (codes "Failed to parse ads.txt") e medium) w,
  )

  -- The new analysis, which only its call knows until it is in the cache.
  unfoldable pub on_built : Clock → Text → World S → Heap × ℕ → Phase × World S
  unfolding on_cached
  on_built clock domain w (heap, a) = (
    holds a,
    logged
        (log_success (codes "domain_analysis") domain
          (codes "Successfully completed domain analysis"))
        (on_cached domain (record w { heap = heap })
          (set_analysis parts.domain_cache clock.stored domain a (pos 0) heap w.cache)),
  )

  -- One step of a call.
  unfoldable pub advance : Input → Text → Phase → World S → Phase × World S
  unfolding on_looked on_content on_entries on_built mark_cached
  advance input domain asks w =
      on_looked domain w (get_analysis parts.domain_cache input.clock.asked domain w.cache w.heap)
  advance input domain (marks a) w = (holds a, record w { heap = mark_cached a w.heap })
  advance input domain fetches w = on_content domain w (input.fetch domain)
  advance input domain (parses content) w = on_entries domain w (parts.parse content)
  advance input domain (stores entries) w =
      on_built input.clock domain w
        (allocate (build_analysis parts.order input.clock.built domain entries) w.heap)
  advance input domain (holds a) w = (holds a, w)
  advance input domain (failed e) w = (failed e, w)

-- What the caller sees: what the pointer holds when it is read, or the error.
pub data Seen : Type 0 where
  analysis : Option DomainAnalysis → Seen
  refused : GoError → Seen

pub record Answer : Type 0 where
  pub domain : Text
  pub seen : Seen

-- The calls that run, what they share, and the answers that were read.
pub record Pool (S : Type 0) : Type 0 where
  pub calls : List Call
  pub world : World S
  pub answers : List Answer

abbrev pub pool : {S : Type 0} → List Call → World S → List Answer → Pool S
pool calls world answers = record { calls = calls; world = world; answers = answers }

abbrev pub call : Text → Phase → Call
call domain phase = record { domain = domain; phase = phase }

abbrev pub answer : Text → Seen → Answer
answer domain seen = record { domain = domain; seen = seen }

-- A step: a new call; a step of a call, with a fetcher that answers with contents that are served for
-- their domains; the end of a call, whose caller reads its answer; or a sweep of the cache.
pub data Step {S : Type 0} (parts : Parts S) (sweep : ℕ → S → S)
    (Served : (domain content : Text) → Type 0) : Pool S → Pool S → Type 0 where
  joins :
      (domain : Text) {calls : List Call} {w : World S} {answers : List Answer}
      → Step parts sweep Served (pool calls w answers) (pool (call domain asks ∷ calls) w answers)
  goes :
      (before after : List Call) (domain : Text) (phase : Phase) (input : Input) {w : World S}
      {answers : List Answer}
      → ((asked content : Text) → input.fetch asked ≡ ok content → Served asked content)
      → Step parts sweep Served (pool (before ++ call domain phase ∷ after) w answers) (
          pool
            (before ++ call domain (advance parts input domain phase w).0 ∷ after)
            (advance parts input domain phase w).1
            answers)
  leaves :
      (before after : List Call) (domain : Text) (a : ℕ) {w : World S} {answers : List Answer}
      → Step parts sweep Served
          (pool (before ++ call domain (holds a) ∷ after) w answers)
          (pool (before ++ after) w (answer domain (analysis (load a w.heap)) ∷ answers))
  leaves_refused :
      (before after : List Call) (domain : Text) (e : GoError) {w : World S} {answers : List Answer}
      → Step parts sweep Served
          (pool (before ++ call domain (failed e) ∷ after) w answers)
          (pool (before ++ after) w (answer domain (refused e) ∷ answers))
  sweeps :
      (now : ℕ) {calls : List Call} {w : World S} {answers : List Answer}
      → Step parts sweep Served
          (pool calls w answers)
          (pool calls (record w { cache = sweep now w.cache }) answers)

pub data Run {S : Type 0} (parts : Parts S) (sweep : ℕ → S → S)
    (Served : (domain content : Text) → Type 0) : Pool S → Pool S → Type 0 where
  rests : {p : Pool S} → Run parts sweep Served p p
  steps :
      {p q r : Pool S}
      → Step parts sweep Served p q
      → Run parts sweep Served q r
      → Run parts sweep Served p r
