-- ===== src/Cache/Redis/Copies.antt =====
-- The domain cache over internal/cache/redis.go: what is read back is a copy of what was written.
use perion_assignment.Common.{
  ℕ, ◌+◌, ◌≤◌, ◌≡◌, refl, ◌∙◌, ap, some, ℤ, not_positive, magnitude, is_zero, if◌then◌else◌,
  Bool-cases, inl, inr,
}
use perion_assignment.Text.{Text}
use perion_assignment.Models.{DomainAnalysis}
use perion_assignment.Models.Heap.{Heap, load, allocate}
use perion_assignment.Models.Errors.{Result, ok, Result-cases}
use perion_assignment.Cache.{Value, pointer}
use perion_assignment.Cache.DomainCache.{
  DomainCache, cache_key, read_value, get_analysis, set_analysis,
}
use perion_assignment.Cache.Redis.{Client, redis_get, redis_set, redis_service}

-- The resolution of an expiry.
abbrev pub millisecond : ℕ
millisecond = 1_000_000

-- A text that was stored is read back until its time to live ends, to the millisecond.
abbrev pub Stores : {R : Type 0} → Client R → Type 0
Stores {R} client =
    (set_at now : ℕ) (key stored : Text) (ttl : ℤ) (r r' : R)
    → client.set_text set_at key stored ttl r ≡ ok r'
    → now + millisecond ≤ set_at + magnitude ttl
    → client.get_text now key r' ≡ ok (some stored)

-- `json.Unmarshal` gives back the analysis of which `json.Marshal` made a text.
abbrev pub RoundTrips : (Heap → Value → Result Text) → (Text → Result DomainAnalysis) → Type 0
RoundTrips marshal unmarshal =
    (heap : Heap) (address : ℕ) (d : DomainAnalysis) (json : Text)
    → load address heap ≡ some d
    → marshal heap (pointer address) ≡ ok json
    → unmarshal json ≡ ok d

module _ {R : Type 0} (client : Client R) (marshal : Heap → Value → Result Text) where
  -- A write that succeeds has stored the text of the value.
  redis_set-ok :
      (now : ℕ) (key : Text) (value : Value) (ttl : ℤ) (heap : Heap) (r r' : R)
      → redis_set client marshal now key value ttl heap r ≡ ok r'
      → (json : Text) × (marshal heap value ≡ ok json)
        × (client.set_text now key json ttl r ≡ ok r')
  unfolding redis_set
  redis_set-ok now key value ttl heap r r' = elim (Bool-cases (not_positive ttl)) [
    | inl bad ↦ rw bad (λ h. absurd (cc h))
    | inr good ↦ elim (Result-cases (marshal heap value)) [
      | inr (e, no_json) ↦ rw (good, no_json) (λ h. absurd (cc h))
      | inl (json, is) ↦ elim (Result-cases (client.set_text now key json ttl r)) [
        | inr (e, not_set) ↦ rw (good, is, not_set) (λ h. absurd (cc h))
        | inl (r'', set) ↦ rw (good, is, set) (λ h. (json, refl, set ∙ ap ok (ok-inj h)))
      ]
    ]
  ]
    where
      ok-inj : {a b : R} → Path (Result R) (ok a) (ok b) → a ≡ b
      ok-inj h = cc

-- The domain cache over Redis, with its default time to live.
abbrev pub over_redis :
    {R : Type 0}
    → Client R
    → (Heap → Value → Result Text)
    → (Text → Result DomainAnalysis)
    → ℤ
    → DomainCache R
over_redis client marshal unmarshal ttl = record {
  cache = redis_service client marshal;
  ttl = ttl;
  unmarshal = unmarshal;
}

-- Over a Redis that stores what it is given and a JSON package that reads what it writes: after an
-- analysis has been written, its domain reads, until a millisecond before the time to live is over,
-- as a copy of it at a new address, and not as the pointer that was written.
pub get_analysis-redis :
    {R : Type 0} (client : Client R) (marshal : Heap → Value → Result Text)
    (unmarshal : Text → Result DomainAnalysis) (default ttl : ℤ) (set_at now : ℕ) (domain : Text)
    (address : ℕ) (heap heap' : Heap) (d : DomainAnalysis) (r r' : R)
    → Stores client
    → RoundTrips marshal unmarshal
    → load address heap ≡ some d
    → set_analysis (over_redis client marshal unmarshal default) set_at domain address ttl heap r
      ≡ ok r'
    → now + millisecond ≤ set_at + magnitude (if is_zero ttl then default else ttl)
    → get_analysis (over_redis client marshal unmarshal default) now domain r' heap'
      ≡ ok (allocate d heap')
unfolding get_analysis set_analysis redis_get read_value
get_analysis-redis client marshal unmarshal default ttl set_at now domain address heap heap' d r r'
      keeps same here set in_time =
    let (json, is, stored) =
      redis_set-ok client marshal set_at (cache_key domain) (pointer address) _ heap r r' set in
    rw
      (
        keeps set_at now (cache_key domain) json _ r r' stored in_time,
        same heap address d json here is,
      )
      refl
