-- ===== src/Cache/DomainCache.antt =====
-- internal/cache/domainCache/domain_cache.go: analyses of domains kept in a cache. An analysis that
-- a caller holds is a pointer, an address in a heap of analyses that the whole process shares.
pub mod Laws
use Prim.Native.String.{String}
use perion_assignment.Common.{
  ℕ, zero, suc, ◌+◌, Bool, Option, none, some, List, [], ◌∷◌, ◌++◌, if◌then◌else◌, ℤ, is_zero,
  length,
}
use perion_assignment.Text.{Text, codes}
use perion_assignment.Models.{DomainAnalysis}
use perion_assignment.Models.Heap.{Heap, allocate}
use perion_assignment.Models.Errors.{GoError, plain, wrapped, error_text, Result, ok, err, ◌>>=◌}
use perion_assignment.Cache.{Value, pointer, analysis, text, other, Service}

-- `domainCache`, over the cache that it wraps and `json.Unmarshal` of a text.
pub record DomainCache (S : Type 0) : Type 0 where
  pub cache : Service S
  pub ttl : ℤ
  pub unmarshal : Text → Result DomainAnalysis

abbrev pub cache_key : Text → Text
cache_key domain = codes "domain:" ++ domain

-- The type switch of `Get`. The error of the default case, whose text names the type, is given
-- without it.
unfoldable pub read_value : (Text → Result DomainAnalysis) → Heap → Value → Result (Heap × ℕ)
read_value unmarshal heap (pointer address) = ok (heap, address)
read_value unmarshal heap (analysis d) = ok (allocate d heap)
read_value unmarshal heap (text json) = elim (unmarshal json) [
  | ok d ↦ ok (allocate d heap)
  | err e ↦ err (wrapped (codes "failed to unmarshal cached domain analysis: " ++ error_text e) e)
]
read_value unmarshal heap other = err (plain (codes "unexpected type in cache: "))

module _ {S : Type 0} (d : DomainCache S) where
  -- `Get`.
  unfoldable pub get_analysis : (now : ℕ) → Text → S → Heap → Result (Heap × ℕ)
  get_analysis now domain s heap = do
    value ← d.cache.get_value now (cache_key domain) s
    read_value d.unmarshal heap value

  -- `Set`, which is given the address of an analysis.
  unfoldable pub set_analysis : (now : ℕ) → Text → (address : ℕ) → (ttl : ℤ) → Heap → S → Result S
  set_analysis now domain address ttl heap s =
      d.cache.set_value now (cache_key domain) (pointer address)
        (if is_zero ttl then d.ttl else ttl) heap s

  -- `Delete`.
  unfoldable pub delete_analysis : Text → S → Result S
  delete_analysis domain s = d.cache.delete_value (cache_key domain) s
