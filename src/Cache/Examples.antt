-- ===== src/Cache/Examples.antt =====
-- Runs of internal/cache, and the theorems on the caches at them.
use perion_assignment.Common.{◌≡◌, refl, [], ◌∷◌, arith, List, none, pos, negsuc}
use perion_assignment.Text.{codes, text_eq}
use perion_assignment.Dict.{get, put, remove, keep_if}
use perion_assignment.Models.Errors.{cache_unavailable, ok, err}
use perion_assignment.Cache.{
  pointer, other, MemoryCache, new_memory_cache, is_expired, memory_get, memory_set, memory_delete,
  cleanup_expired, memory_size,
}
use perion_assignment.Cache.Memory.Refines.{
  Op, get_op, set_op, delete_op, tick_op, memory_run, spec_run, memory_run-refines,
}
use perion_assignment.Cache.DomainCache.{set_analysis}

-- What the runs unfold.
memory : Unit {0}
unfolding text_eq get put remove keep_if new_memory_cache is_expired memory_get memory_set
    memory_delete cleanup_expired memory_size set_analysis
memory = tt

-- A cache with two keys.
abbrev two_keys : MemoryCache
two_keys = record {
  entries =
      (codes "a", record { value = pointer 0; expires_at = 10 })
      ∷ (codes "b", record { value = other; expires_at = 20 })
      ∷ [];
}

abbrev two_keys_later : MemoryCache
two_keys_later = record {
  entries =
      (codes "a", record { value = pointer 5; expires_at = 37 })
      ∷ (codes "b", record { value = other; expires_at = 20 })
      ∷ [];
}

abbrev one_key : MemoryCache
one_key = record { entries = (codes "b", record { value = other; expires_at = 20 }) ∷ [] }

sets : memory_set 7 (codes "a") (pointer 5) (pos 30) two_keys ≡ ok two_keys_later
unfolding memory
sets = refl

deletes : memory_delete (codes "a") two_keys ≡ ok one_key
unfolding memory
deletes = refl

runs :
    (memory_get 10 (codes "a") two_keys ≡ ok (pointer 0))
    × (memory_get 11 (codes "a") two_keys ≡ err cache_unavailable)
    × (memory_get 11 (codes "z") two_keys ≡ err cache_unavailable)
    × (memory_size (cleanup_expired 11 two_keys) ≡ 1)
unfolding memory
runs = (refl, refl, refl, refl)

-- Two writes, a deletion, and a sweep that comes before a read.
abbrev calls : List Op
calls =
    set_op 1 (codes "a") (pointer 0) (pos 30)
    ∷ set_op 2 (codes "b") other (pos 100)
    ∷ set_op 3 (codes "c") other (negsuc 4)
    ∷ get_op 31 (codes "a")
    ∷ tick_op 50
    ∷ get_op 51 (codes "a")
    ∷ delete_op 52 (codes "b")
    ∷ get_op 53 (codes "b")
    ∷ []

memory_run-refines_example : memory_run calls new_memory_cache ≡ spec_run calls (λ key. none)
memory_run-refines_example = memory_run-refines 0 calls (
  omega arith,
  (
    omega arith,
    (omega arith, (omega arith, (omega arith, (omega arith, (omega arith, (omega arith, tt)))))),
  ),
)
