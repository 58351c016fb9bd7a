-- ===== src/Analysis/Shared/Sound.antt =====
-- Calls of internal/domainAnalysis/analysis.go that run at the same time over the cache in memory: what
-- they share, and what each of them answers.
use perion_assignment.Common.{
  ℕ, ◌+◌, ◌≡◌, refl, ◌∙◌, ap, sym, Option, some, List, ℤ, pos, inl, inr, Bool-cases, if◌then◌else◌,
  magnitude, Option-cases,
}
use perion_assignment.Text.{Text, codes, text_eq, text_eq_iff}
use perion_assignment.Dict.{Dict, get, IsDict}
use perion_assignment.Dict.Laws.{get-put}
use perion_assignment.Models.{DomainAnalysis, AdsTxtEntry}
use perion_assignment.Models.Heap.{Heap, load, allocate, load-allocate}
use perion_assignment.Models.Errors.{GoError, domain_error, Result, ok, Result-cases}
use perion_assignment.Cache.{pointer, CacheEntry, MemoryCache, memory_get, is_expired}
use perion_assignment.Cache.Memory.{set_entries, set-IsDict}
use perion_assignment.Cache.DomainCache.{cache_key, get_analysis, set_analysis, read_value}
use perion_assignment.Cache.DomainCache.Laws.{text_eq-cache_key}
use perion_assignment.Analysis.{build_analysis}
use perion_assignment.Analysis.Service.{Parts, World, Clock, mark_cached, on_cached}
use perion_assignment.Analysis.Service.Outcomes.{memory_parts}
use perion_assignment.Analysis.Shared.{
  Phase, asks, marks, fetches, parses, stores, holds, failed, Input, on_looked, on_content,
  on_entries, on_built, advance,
}
use perion_assignment.Analysis.Shared.Grows.{
  IsMarked, Grows, Grows-refl, Grows-allocate, Grows-mark_cached,
}

entry-inj : {x y : CacheEntry} → Path (Option CacheEntry) (some x) (some y) → x ≡ y
entry-inj h = cc

module _ (parse : Text → Result (List AdsTxtEntry)) (order : Dict ℕ → List (Text × ℕ))
    (Served : (domain content : Text) → Type 0) where
  -- The analysis of a content that was served for the domain, marked as cached or not.
  pub record IsAnalysisOf (domain : Text) (x : DomainAnalysis) : Type 0 where
    pub content : Text
    pub served : Served domain content
    pub entries : List AdsTxtEntry
    pub parsed : parse content ≡ ok entries
    pub built : ℕ
    pub same : x ≡ record (build_analysis order built domain entries) { cached = x.cached }

  IsAnalysisOf-marked :
      {domain : Text} {x y : DomainAnalysis}
      → IsMarked x y
      → IsAnalysisOf domain x
      → IsAnalysisOf domain y
  IsAnalysisOf-marked {domain} {x} {y} m h = record {
    content = h.content;
    served = h.served;
    entries = h.entries;
    parsed = h.parsed;
    built = h.built;
    same = m.same ∙ ap (λ (d : DomainAnalysis). record d { cached = y.cached }) h.same;
  }

  abbrev pub IsFor : Text → ℕ → Heap → Type 0
  IsFor domain a heap = (x : DomainAnalysis) × (load a heap ≡ some x) × IsAnalysisOf domain x

  IsFor-grows :
      (domain : Text) (a : ℕ) (heap heap' : Heap)
      → Grows heap heap'
      → IsFor domain a heap
      → IsFor domain a heap'
  IsFor-grows domain a heap heap' g (x, here, h) =
      let (y, there, m) = g a x here in (y, there, IsAnalysisOf-marked m h)

  -- Every entry of the cache under a domain is a pointer to an analysis of that domain.
  pub record Coherent (cache : MemoryCache) (heap : Heap) : Type 0 where
    pub distinct : IsDict cache.entries
    pub entries :
        (domain : Text) (e : CacheEntry)
        → get (cache_key domain) cache.entries ≡ some e
        → (a : ℕ) × (e.value ≡ pointer a) × IsFor domain a heap

  Coherent-Grows :
      (cache : MemoryCache) (heap heap' : Heap)
      → Grows heap heap'
      → Coherent cache heap
      → Coherent cache heap'
  Coherent-Grows cache heap heap' g c = record {
    distinct = c.distinct;
    entries = λ domain e h.
        let (a, at, for) = c.entries domain e h in (a, at, IsFor-grows domain a heap heap' g for);
  }

  -- What the phase of a call says of the analyses.
  abbrev pub IsSound : Text → Heap → Phase → Type 0
  IsSound domain heap (marks a) = IsFor domain a heap
  IsSound domain heap (holds a) = IsFor domain a heap
  IsSound domain heap (parses content) = Served domain content
  IsSound domain heap (stores entries) =
      (content : Text) × Served domain content × (parse content ≡ ok entries)
  IsSound domain heap (failed e) =
      (message : Text) × (cause : GoError) × (e ≡ domain_error domain message cause)
  IsSound domain heap _ = Unit {0}

  pub IsSound-Grows :
      (domain : Text) (heap heap' : Heap) (phase : Phase)
      → Grows heap heap'
      → IsSound domain heap phase
      → IsSound domain heap' phase
  IsSound-Grows domain heap heap' asks g h = tt
  IsSound-Grows domain heap heap' (marks a) g h = IsFor-grows domain a heap heap' g h
  IsSound-Grows domain heap heap' fetches g h = tt
  IsSound-Grows domain heap heap' (parses content) g h = h
  IsSound-Grows domain heap heap' (stores entries) g h = h
  IsSound-Grows domain heap heap' (holds a) g h = IsFor-grows domain a heap heap' g h
  IsSound-Grows domain heap heap' (failed e) g h = h

  -- A step of a call keeps what is shared coherent, and leaves the call sound.
  abbrev pub Advances : Text → Heap → Phase × World MemoryCache → Type 0
  Advances domain heap (phase, w) =
      Coherent w.cache w.heap × IsSound domain w.heap phase × Grows heap w.heap

  module _ (unmarshal : Text → Result DomainAnalysis) (ttl : ℤ) (fetch : Text → Result Text) where
    abbrev pub parts : Parts MemoryCache
    parts = memory_parts parse fetch order unmarshal ttl

    looked-Advances :
        (now : ℕ) (domain : Text) (w : World MemoryCache)
        → Coherent w.cache w.heap
        → Advances domain w.heap
            (on_looked parts domain w (get_analysis parts.domain_cache now domain w.cache w.heap))
    unfolding get_analysis memory_get on_looked read_value
    looked-Advances now domain w c = elim (Option-cases (get (cache_key domain) w.cache.entries)) [
      | inl absent ↦ rw absent (c, tt, Grows-refl w.heap)
      | inr (e, found) ↦
          let (a, at, for) = c.entries domain e found in
          elim (Bool-cases (is_expired now e)) [
            | inl gone ↦ rw (found, gone) (c, tt, Grows-refl w.heap)
            | inr live ↦ rw (found, live, at) (c, for, Grows-refl w.heap)
          ]
    ]

    new_entry :
        (stored : ℕ) (domain : Text) (a : ℕ) (heap heap' : Heap) (m m' : MemoryCache)
        → Coherent m heap
        → Grows heap heap'
        → IsFor domain a heap'
        → set_analysis parts.domain_cache stored domain a (pos 0) heap' m ≡ ok m'
        → Coherent m' heap'
    unfolding set_analysis
    new_entry stored domain a heap heap' m m' c g for h = record {
      distinct = set-IsDict m m' stored (cache_key domain) (pointer a) _ h c.distinct;
      entries = λ other e found. go other e (
          rw
            (
              set_entries m m' stored (cache_key domain) (pointer a) _ h,
              get-put (cache_key other) (cache_key domain) new m.entries,
              text_eq-cache_key domain other,
            )
            at found);
    }
      where
        new : CacheEntry
        new = record { value = pointer a; expires_at = stored + magnitude ttl }

        go :
            (other : Text) (e : CacheEntry)
            → (if text_eq domain other then some new else get (cache_key other) m.entries) ≡ some e
            → (b : ℕ) × (e.value ≡ pointer b) × IsFor other b heap'
        go other e found = elim (Bool-cases (text_eq domain other)) [
          | inl same ↦ (
            a,
            ap (λ (x : CacheEntry). x.value) (sym (entry-inj (rw same at found))),
            rw (← (text_eq_iff domain other).0 same) for,
          )
          | inr different ↦
              let (b, at, old) = c.entries other e (rw different at found) in
              (b, at, IsFor-grows other b heap heap' g old)
        ]

    built-Advances :
        (clock : Clock) (domain : Text) (w : World MemoryCache) (entries : List AdsTxtEntry)
        → Coherent w.cache w.heap
        → (content : Text) × Served domain content × (parse content ≡ ok entries)
        → Advances domain w.heap (
            on_built parts clock domain w
              (allocate (build_analysis order clock.built domain entries) w.heap))
    unfolding on_built on_cached
    built-Advances clock domain w entries c (content, served, parsed) =
        let built = build_analysis order clock.built domain entries in
        let (heap, a) = allocate built w.heap in
        let grows = Grows-allocate built w.heap in
        let for : IsFor domain a heap = (
          built,
          load-allocate built w.heap,
          record {
            content = content;
            served = served;
            entries = entries;
            parsed = parsed;
            built = clock.built;
            same = unfold build_analysis in refl;
          },
        ) in
        elim (Result-cases
          (set_analysis parts.domain_cache clock.stored domain a (pos 0) heap w.cache)) [
            | inl (m', set) ↦
                rw set (
                  new_entry clock.stored domain a w.heap heap w.cache m' c grows for set,
                  for,
                  grows,
                )
            | inr (e, no_set) ↦ rw no_set (Coherent-Grows w.cache w.heap heap grows c, for, grows)
          ]

    pub advance-Advances :
        (input : Input) (domain : Text) (phase : Phase) (w : World MemoryCache)
        → ((asked content : Text) → input.fetch asked ≡ ok content → Served asked content)
        → Coherent w.cache w.heap
        → IsSound domain w.heap phase
        → Advances domain w.heap (advance parts input domain phase w)
    unfolding advance on_content on_entries
    advance-Advances input domain asks w gives c h = looked-Advances input.clock.asked domain w c
    advance-Advances input domain (marks a) w gives c h =
        let grows = Grows-mark_cached a w.heap in
        (
          Coherent-Grows w.cache w.heap (mark_cached a w.heap) grows c,
          IsFor-grows domain a w.heap (mark_cached a w.heap) grows h,
          grows,
        )
    advance-Advances input domain fetches w gives c h = elim (Result-cases (input.fetch domain)) [
      | inl (content, found) ↦ rw found (c, gives domain content found, Grows-refl w.heap)
      | inr (e, lost) ↦ rw lost (c, (codes "failed to fetch ads.txt", e, refl), Grows-refl w.heap)
    ]
    advance-Advances input domain (parses content) w gives c h =
        elim (Result-cases (parse content)) [
          | inl (entries, good) ↦ rw good (c, (content, h, good), Grows-refl w.heap)
          | inr (e, bad) ↦ rw bad (c, (codes "failed to parse ads.txt", e, refl), Grows-refl w.heap)
        ]
    advance-Advances input domain (stores entries) w gives c h =
        built-Advances input.clock domain w entries c h
    advance-Advances input domain (holds a) w gives c h = (c, h, Grows-refl w.heap)
    advance-Advances input domain (failed e) w gives c h = (c, h, Grows-refl w.heap)
