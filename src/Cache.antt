-- ===== src/Cache.antt =====
-- internal/cache: the interface of a cache, and the cache in memory (memory.go). A time is a number
-- of nanoseconds, read by the caller; a time to live is a signed number of them.
pub mod Memory
pub mod DomainCache
pub mod Redis
mod Examples
use Prim.Native.String.{String}
use perion_assignment.Common.{
  ◌++◌, ℕ, ◌+◌, Bool, Option, none, some, List, not, ltb, if◌then◌else◌, ℤ, not_positive, magnitude,
  length,
}
use perion_assignment.Text.Duration.{duration_text}
use perion_assignment.Text.{Text, codes}
use perion_assignment.Dict.{Dict, get, put, remove, keep_if}
use perion_assignment.Models.{DomainAnalysis}
use perion_assignment.Models.Heap.{Heap}
use perion_assignment.Models.Errors.{GoError, cache_unavailable, plain, Result, ok, err}

-- An `interface{}` that a cache may hold: a `*models.DomainAnalysis`, which is an address in the
-- heap, a `models.DomainAnalysis`, a string, or a value of another type.
pub data Value : Type 0 where
  pointer : (address : ℕ) → Value
  analysis : DomainAnalysis → Value
  text : Text → Value
  other : Value

-- `cache.Service`, over the state that the implementation keeps. A call is given the time, and a
-- write the heap that the value may point into.
pub record Service (S : Type 0) : Type 0 where
  pub get_value : (now : ℕ) → Text → S → Result Value
  pub set_value : (now : ℕ) → Text → Value → (ttl : ℤ) → Heap → S → Result S
  pub delete_value : Text → S → Result S

pub record CacheEntry : Type 0 where
  pub value : Value
  pub expires_at : ℕ

pub record MemoryCache : Type 0 where
  pub entries : Dict CacheEntry

unfoldable pub new_memory_cache : MemoryCache
new_memory_cache = record { entries = List.[] }

-- `time.Now().After(entry.expiresAt)`.
unfoldable pub is_expired : (now : ℕ) → CacheEntry → Bool
is_expired now entry = ltb entry.expires_at now

abbrev pub live_value : (now : ℕ) → Option CacheEntry → Result Value
live_value now none = err cache_unavailable
live_value now (some entry) = if is_expired now entry then err cache_unavailable else ok entry.value

-- `MemoryCache.Get`.
unfoldable pub memory_get : (now : ℕ) → Text → MemoryCache → Result Value
memory_get now key m = live_value now (get key m.entries)

-- `MemoryCache.Set`; the error's text names the duration, which is left out.
unfoldable pub memory_set : (now : ℕ) → Text → Value → (ttl : ℤ) → MemoryCache → Result MemoryCache
memory_set now key value ttl m =
    if not_positive ttl
    then err (plain (codes "TTL must be positive, got: " ++ duration_text ttl))
    else ok (record {
      entries = put key (record { value = value; expires_at = now + magnitude ttl }) m.entries;
    })

-- `MemoryCache.Delete`.
unfoldable pub memory_delete : Text → MemoryCache → Result MemoryCache
memory_delete key m = ok (record { entries = remove key m.entries })

-- One tick of `cleanupExpired`.
unfoldable pub cleanup_expired : (now : ℕ) → MemoryCache → MemoryCache
cleanup_expired now m = record { entries = keep_if (λ e. not (is_expired now e)) m.entries }

-- `MemoryCache.Size`.
unfoldable pub memory_size : MemoryCache → ℕ
memory_size m = length m.entries

-- The cache in memory behind the interface.
abbrev pub memory_service : Service MemoryCache
memory_service = record {
  get_value = memory_get;
  set_value = λ now key value ttl heap m. memory_set now key value ttl m;
  delete_value = memory_delete;
}
