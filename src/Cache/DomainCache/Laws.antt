-- ===== src/Cache/DomainCache/Laws.antt =====
-- internal/cache/domainCache/domain_cache.go over the cache in memory.
use perion_assignment.Common.{ℕ, ◌+◌, ◌≡◌, refl, ltb, is_zero, if◌then◌else◌, ℤ, magnitude, arith}
use perion_assignment.Text.{Text, text_eq}
use perion_assignment.Models.{DomainAnalysis}
use perion_assignment.Models.Heap.{Heap}
use perion_assignment.Models.Errors.{cache_unavailable, Result, ok, err}
use perion_assignment.Cache.{pointer, MemoryCache, memory_service}
use perion_assignment.Cache.Memory.{get-set}
use perion_assignment.Cache.DomainCache.{
  DomainCache, cache_key, read_value, get_analysis, set_analysis,
}

-- The domain cache over the cache in memory, with its default time to live.
abbrev pub over_memory : (Text → Result DomainAnalysis) → ℤ → DomainCache MemoryCache
over_memory unmarshal ttl = record { cache = memory_service; ttl = ttl; unmarshal = unmarshal }

pub text_eq-cache_key : (a b : Text) → text_eq (cache_key a) (cache_key b) ≡ text_eq a b
unfolding text_eq
text_eq-cache_key a b = refl

-- After an analysis has been written, its domain reads as the very pointer that was written, and
-- not as a copy, until the time to live (the default one where none is given) has passed, and as
-- missing afterwards; every other domain reads as before.
pub get_analysis-set_analysis :
    (unmarshal : Text → Result DomainAnalysis) (default ttl : ℤ) (set_at now : ℕ)
    (domain other : Text) (address : ℕ) (heap heap' : Heap) (m m' : MemoryCache)
    → set_analysis (over_memory unmarshal default) set_at domain address ttl heap m ≡ ok m'
    → get_analysis (over_memory unmarshal default) now other m' heap' ≡ (
        if text_eq domain other
        then (if ltb (set_at + magnitude (if is_zero ttl then default else ttl)) now
            then err cache_unavailable
            else ok (heap', address))
        else get_analysis (over_memory unmarshal default) now other m heap')
unfolding get_analysis set_analysis read_value
get_analysis-set_analysis unmarshal default ttl set_at now domain other address heap heap' m m' h =
    rw
      (
        get-set m m' set_at now (cache_key domain) (cache_key other) (pointer address) _ h,
        text_eq-cache_key domain other,
      )
      (ground arith)
