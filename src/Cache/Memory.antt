-- ===== src/Cache/Memory.antt =====
-- The cache in memory against a map from keys to values with a time after which they are gone.
pub mod Refines
use perion_assignment.Common.{
  ℕ, ◌+◌, ◌≤◌, ◌≡◌, refl, ◌↔◌, Bool, true, Option, none, some, [], ◌∷◌, not, ltb, if◌then◌else◌, ℤ,
  not_positive, magnitude, length, arith, Bool-cases, inl, inr,
}
use perion_assignment.Text.{Text, text_eq}
use perion_assignment.Dict.{Dict, get, put, remove, keep_if, IsDict}
use perion_assignment.Dict.Laws.{get-put, get-remove, get-keep_if, put-IsDict, kept}
use perion_assignment.Models.Errors.{GoError, cache_unavailable, ok, err}
use perion_assignment.Cache.{
  Value, CacheEntry, MemoryCache, is_expired, live_value, memory_get, memory_set, memory_delete,
  cleanup_expired, memory_size,
}

length-keep_if : (p : CacheEntry → Bool) (es : Dict CacheEntry) → length (keep_if p es) ≤ length es
unfolding keep_if
length-keep_if p [] = omega arith
length-keep_if p ((k, e) ∷ es) = ground (arith, length-keep_if p es)

pub set_entries :
    (m m' : MemoryCache) (now : ℕ) (key : Text) (value : Value) (ttl : ℤ)
    → memory_set now key value ttl m ≡ ok m'
    → m'.entries ≡ put key (record { value = value; expires_at = now + magnitude ttl }) m.entries
unfolding memory_set
set_entries m m' now key value ttl h = ground arith

-- After a write with a positive time to live, a key reads as the written value until that time has
-- passed, and as missing afterwards; every other key reads as before.
pub get-set :
    (m m' : MemoryCache) (set_at now : ℕ) (key other : Text) (value : Value) (ttl : ℤ)
    → memory_set set_at key value ttl m ≡ ok m'
    → memory_get now other m' ≡ (
        if text_eq key other
        then (if ltb (set_at + magnitude ttl) now then err cache_unavailable else ok value)
        else memory_get now other m)
unfolding memory_set memory_get is_expired
get-set m m' set_at now key other value ttl h =
    let same = set_entries m m' set_at key value ttl h in
    rw
      (
        same,
        get-put other key (record { value = value; expires_at = set_at + magnitude ttl }) m.entries,
      )
      (ground arith)

-- A write fails exactly when the time to live is not positive.
pub set_fails :
    (m : MemoryCache) (now : ℕ) (key : Text) (value : Value) (ttl : ℤ)
    → ((e : GoError) × (memory_set now key value ttl m ≡ err e)) ↔ (not_positive ttl ≡ true)
unfolding memory_set
set_fails m now key value ttl = elim (Bool-cases (not_positive ttl)) [
  | inl bad ↦ rw bad ((λ _. refl), (λ _. (_, refl)))
  | inr good ↦ rw good ((λ h. cc (h.1)), (λ h. cc))
]

-- After a deletion the key reads as missing, and every other key as before.
pub get-delete :
    (m m' : MemoryCache) (now : ℕ) (key other : Text)
    → memory_delete key m ≡ ok m'
    → memory_get now other m'
      ≡ (if text_eq key other then err cache_unavailable else memory_get now other m)
unfolding memory_delete memory_get
get-delete m m' now key other h =
    let same : m'.entries ≡ remove key m.entries = ground arith in
    rw (same, get-remove other key m.entries) (ground arith)

-- A sweep is unseen: from then on each key reads as it would have read without it.
pub get-cleanup :
    (m : MemoryCache) (swept now : ℕ) (key : Text)
    → IsDict m.entries
    → swept ≤ now
    → memory_get now key (cleanup_expired swept m) ≡ memory_get now key m
unfolding memory_get cleanup_expired is_expired
get-cleanup m swept now key d h =
    rw (get-keep_if (λ e. not (ltb e.expires_at swept)) key m.entries d) (go (get key m.entries))
  where
    go :
        (found : Option CacheEntry)
        → live_value now (kept (λ e. not (ltb e.expires_at swept)) found) ≡ live_value now found
    go none = refl
    go (some entry) = ground arith

-- The operations keep each key once.
pub set-IsDict :
    (m m' : MemoryCache) (now : ℕ) (key : Text) (value : Value) (ttl : ℤ)
    → memory_set now key value ttl m ≡ ok m'
    → IsDict m.entries
    → IsDict m'.entries
set-IsDict m m' now key value ttl h d =
    rw (set_entries m m' now key value ttl h) (put-IsDict key _ m.entries d)

-- A sweep leaves no more entries than there were.
pub size-cleanup : (m : MemoryCache) (now : ℕ) → memory_size (cleanup_expired now m) ≤ memory_size m
unfolding memory_size cleanup_expired
size-cleanup m now = length-keep_if (λ e. not (is_expired now e)) m.entries
