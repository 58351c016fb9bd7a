-- ===== src/Cache/Memory/Refines.antt =====
-- The cache in memory (internal/cache/memory.go) against its specification: a function from keys to
-- values with a time after which they are gone, on which the sweeps do nothing.
use perion_assignment.Common.{
  ◌++◌, ℕ, ◌+◌, ◌≤◌, ◌≡◌, refl, ◌∙◌, ap, Option, none, some, List, [], ◌∷◌, if◌then◌else◌, ℤ,
  not_positive, magnitude, arith, Bool-cases, inl, inr,
}
use perion_assignment.Text.Duration.{duration_text}
use perion_assignment.Text.{Text, codes, text_eq}
use perion_assignment.Dict.{get, put, remove, IsDict}
use perion_assignment.Dict.Laws.{get-put, get-remove, put-IsDict, remove-IsDict, keep_if-IsDict}
use perion_assignment.Models.Errors.{GoError, plain, Result, ok, err}
use perion_assignment.Cache.{
  Value, CacheEntry, MemoryCache, new_memory_cache, live_value, memory_get, memory_set,
  memory_delete, cleanup_expired,
}
use perion_assignment.Cache.Memory.{get-cleanup}

-- What a key is bound to, if anything.
abbrev pub Spec : Type 0
Spec = Text → Option CacheEntry

-- The calls of a cache, each at a time, and the ticks of its cleanup.
pub data Op : Type 0 where
  get_op : (now : ℕ) → Text → Op
  set_op : (now : ℕ) → Text → Value → (ttl : ℤ) → Op
  delete_op : (now : ℕ) → Text → Op
  tick_op : (now : ℕ) → Op

pub data Answer : Type 0 where
  read : Result Value → Answer
  written : Option GoError → Answer
  silent : Answer

abbrev pub time_of : Op → ℕ
time_of (get_op now key) = now
time_of (set_op now key value ttl) = now
time_of (delete_op now key) = now
time_of (tick_op now) = now

-- Calls at times that do not fall.
abbrev pub IsOrdered : ℕ → List Op → Type 0
IsOrdered now [] = Unit
IsOrdered now (op ∷ ops) = (now ≤ time_of op) × IsOrdered (time_of op) ops

abbrev bound : Text → CacheEntry → Spec → Spec
bound key entry spec k = if text_eq key k then some entry else spec k

abbrev unbound : Text → Spec → Spec
unbound key spec k = if text_eq key k then none else spec k

-- The specification: a write with a time to live that is not positive is refused.
abbrev pub spec_step : Op → Spec → Spec × Answer
spec_step (get_op now key) spec = (spec, read (live_value now (spec key)))
spec_step (set_op now key value ttl) spec =
    if not_positive ttl
    then (spec, written (some (plain (codes "TTL must be positive, got: " ++ duration_text ttl))))
    else (bound key (record { value = value; expires_at = now + magnitude ttl }) spec, written none)
spec_step (delete_op now key) spec = (unbound key spec, written none)
spec_step (tick_op now) spec = (spec, silent)

-- A write or a deletion, and what it leaves on an error.
abbrev after : MemoryCache → Result MemoryCache → MemoryCache × Answer
after m (ok m') = (m', written none)
after m (err e) = (m, written (some e))

pub memory_step : Op → MemoryCache → MemoryCache × Answer
memory_step (get_op now key) m = (m, read (memory_get now key m))
memory_step (set_op now key value ttl) m = after m (memory_set now key value ttl m)
memory_step (delete_op now key) m = after m (memory_delete key m)
memory_step (tick_op now) m = (cleanup_expired now m, silent)

-- The answers to a sequence of calls.
pub spec_run : List Op → Spec → List Answer
spec_run [] spec = []
spec_run (op ∷ ops) spec = (spec_step op spec).1 ∷ spec_run ops (spec_step op spec).0

pub memory_run : List Op → MemoryCache → List Answer
memory_run [] m = []
memory_run (op ∷ ops) m = (memory_step op m).1 ∷ memory_run ops (memory_step op m).0

-- From a time on, each key reads alike.
record Refines (now : ℕ) (m : MemoryCache) (spec : Spec) : Type 0 where
  distinct : IsDict m.entries
  alike :
      (later : ℕ) (key : Text)
      → now ≤ later
      → live_value later (get key m.entries) ≡ live_value later (spec key)

Refines-later :
    (now later : ℕ) (m : MemoryCache) (spec : Spec)
    → now ≤ later
    → Refines now m spec
    → Refines later m spec
Refines-later now later m spec h r = record {
  distinct = r.distinct;
  alike = λ t key k. r.alike t key (omega arith);
}

put-Refines :
    (now : ℕ) (key : Text) (entry : CacheEntry) (m : MemoryCache) (spec : Spec)
    → Refines now m spec
    → Refines now (record { entries = put key entry m.entries }) (bound key entry spec)
put-Refines now key entry m spec r = record {
  distinct = put-IsDict key entry m.entries r.distinct;
  alike = λ t k h. rw (get-put k key entry m.entries) (same t k h);
}
  where
    same :
        (t : ℕ) (k : Text)
        → now ≤ t
        → live_value t (if text_eq key k then some entry else get k m.entries)
          ≡ live_value t (if text_eq key k then some entry else spec k)
    same t k h = elim (Bool-cases (text_eq key k)) [
      | inl here ↦ rw here refl
      | inr other ↦ rw other (r.alike t k h)
    ]

remove-Refines :
    (now : ℕ) (key : Text) (m : MemoryCache) (spec : Spec)
    → Refines now m spec
    → Refines now (record { entries = remove key m.entries }) (unbound key spec)
remove-Refines now key m spec r = record {
  distinct = remove-IsDict key m.entries r.distinct;
  alike = λ t k h. rw (get-remove k key m.entries) (same t k h);
}
  where
    same :
        (t : ℕ) (k : Text)
        → now ≤ t
        → live_value t (if text_eq key k then none else get k m.entries)
          ≡ live_value t (if text_eq key k then none else spec k)
    same t k h = elim (Bool-cases (text_eq key k)) [
      | inl here ↦ rw here refl
      | inr other ↦ rw other (r.alike t k h)
    ]

tick-Refines :
    (now : ℕ) (m : MemoryCache) (spec : Spec)
    → Refines now m spec
    → Refines now (cleanup_expired now m) spec
unfolding memory_get cleanup_expired
tick-Refines now m spec r = record {
  distinct = keep_if-IsDict _ m.entries r.distinct;
  alike = λ t key h. unseen t key h ∙ r.alike t key h;
}
  where
    unseen :
        (t : ℕ) (key : Text)
        → now ≤ t
        → live_value t (get key (cleanup_expired now m).entries) ≡ live_value t (get key m.entries)
    unseen t key h = get-cleanup m now t key r.distinct h

-- One call: the same answer, and caches that read alike from then on.
step-Refines :
    (now : ℕ) (op : Op) (m : MemoryCache) (spec : Spec)
    → Refines now m spec
    → now ≤ time_of op
    → ((memory_step op m).1 ≡ (spec_step op spec).1)
      × Refines (time_of op) (memory_step op m).0 (spec_step op spec).0
unfolding memory_step memory_get memory_set memory_delete
step-Refines now (get_op t key) m spec r h =
    (ap read (r.alike t key h), Refines-later now t m spec h r)
step-Refines now (set_op t key value ttl) m spec r h = elim (Bool-cases (not_positive ttl)) [
  | inl bad ↦ rw bad (refl, Refines-later now t m spec h r)
  | inr good ↦ rw good (refl, put-Refines t key _ m spec (Refines-later now t m spec h r))
]
step-Refines now (delete_op t key) m spec r h =
    (refl, remove-Refines t key m spec (Refines-later now t m spec h r))
step-Refines now (tick_op t) m spec r h =
    (refl, tick-Refines t m spec (Refines-later now t m spec h r))

run-Refines :
    (now : ℕ) (ops : List Op) (m : MemoryCache) (spec : Spec)
    → Refines now m spec
    → IsOrdered now ops
    → memory_run ops m ≡ spec_run ops spec
unfolding memory_run spec_run
run-Refines now [] m spec r h = refl
run-Refines now (op ∷ ops) m spec r h =
    let (same, next) = step-Refines now op m spec r h.0 in
    rw (same, run-Refines (time_of op) ops (memory_step op m).0 (spec_step op spec).0 next h.1) refl

-- No sequence of calls at times that do not fall, with ticks of the cleanup anywhere among them,
-- tells a new cache from the empty specification.
pub memory_run-refines :
    (now : ℕ) (ops : List Op)
    → IsOrdered now ops
    → memory_run ops new_memory_cache ≡ spec_run ops (λ key. none)
memory_run-refines now ops h =
    run-Refines now ops new_memory_cache (λ key. none)
      (unfold new_memory_cache get in record { distinct = tt; alike = λ t key k. refl }) h
