-- ===== src/Analysis/Service/Outcomes.antt =====
-- What `AnalyzeDomain` of internal/domainAnalysis/analysis.go answers.
use perion_assignment.Common.{
  ℕ, ◌+◌, ◌≤◌, ◌≡◌, refl, ◌∙◌, ◌↔◌, inl, inr, true, false, some, List, [], ◌∷◌, ◌++◌, length, ltb,
  ℤ, pos, magnitude, not_positive, arith,
}
use perion_assignment.Text.{Text, text_eq_refl}
use perion_assignment.Dict.{Dict}
use perion_assignment.Models.{DomainAnalysis, AdsTxtEntry}
use perion_assignment.Models.Heap.{Heap, load, load-allocate, load-store}
use perion_assignment.Models.Errors.{GoError, domain_error, Result, ok, err, ◌>>=◌, Result-cases}
use perion_assignment.Dict.{put}
use perion_assignment.Cache.{MemoryCache, memory_set, pointer}
use perion_assignment.Cache.DomainCache.{cache_key}
use perion_assignment.Cache.DomainCache.{get_analysis, set_analysis}
use perion_assignment.Cache.DomainCache.Laws.{over_memory, get_analysis-set_analysis}
use perion_assignment.Analysis.{build_analysis}
use perion_assignment.Analysis.Service.{
  Parts, World, Clock, analyze_domain, on_asked, on_fetched, on_parsed, on_cached, on_hit,
  mark_cached,
}

-- `r` is an error.
abbrev pub Fails {ℓ} : {A : Type ℓ} → Result A → Type ℓ
Fails {A = A} r = (e : GoError) × (r ≡ err e)

-- The error of a failure at a domain.
domain_error_of :
    (domain message : Text) (cause e : GoError)
    → Path (Result ℕ) (err (domain_error domain message cause)) (err e)
    → (message : Text) × (cause : GoError) × (e ≡ domain_error domain message cause)
domain_error_of domain message cause e h = (message, cause, cc)

ok-inj : {a b : ℕ} → Path (Result ℕ) (ok a) (ok b) → a ≡ b
ok-inj h = cc

module _ {S : Type 0} (parts : Parts S) where
  -- `AnalyzeDomain` fails exactly when the domain is not in the cache and its file cannot be fetched
  -- or not be parsed: a cache that does not store the new analysis fails nothing.
  pub analyze_domain-Fails :
      (clock : Clock) (domain : Text) (w : World S)
      → Fails (analyze_domain parts clock domain w).1 ↔ (
          Fails (get_analysis parts.domain_cache clock.asked domain w.cache w.heap)
          × Fails (parts.fetch domain >>= parts.parse))
  unfolding analyze_domain on_asked on_fetched on_parsed on_hit
  analyze_domain-Fails clock domain w =
      elim (Result-cases (get_analysis parts.domain_cache clock.asked domain w.cache w.heap)) [
        | inl ((heap, a), hit) ↦ rw hit ((λ h. cc (h.1)), (λ h. cc (h.0.1)))
        | inr (e, miss) ↦ rw miss (elim (Result-cases (parts.fetch domain)) [
          | inr (e', no_file) ↦ rw no_file ((λ h. ((_, refl), (_, refl))), (λ h. (_, refl)))
          | inl (content, file) ↦ rw file (elim (Result-cases (parts.parse content)) [
            | inr (e', bad) ↦ rw bad ((λ h. ((_, refl), (_, refl))), (λ h. (_, refl)))
            | inl (entries, good) ↦ rw good ((λ h. cc (h.1)), (λ h. cc (h.1.1)))
          ])
        ])
      ]

  -- A call that fails changes neither the cache nor the analyses, and names the domain in its error.
  pub analyze_domain-unchanged :
      (clock : Clock) (domain : Text) (w : World S) (e : GoError)
      → (analyze_domain parts clock domain w).1 ≡ err e
      → ((analyze_domain parts clock domain w).0.cache ≡ w.cache)
        × ((analyze_domain parts clock domain w).0.heap ≡ w.heap)
        × ((message : Text) × (cause : GoError) × (e ≡ domain_error domain message cause))
  unfolding analyze_domain on_asked on_fetched on_parsed on_hit
  analyze_domain-unchanged clock domain w e =
      elim (Result-cases (get_analysis parts.domain_cache clock.asked domain w.cache w.heap)) [
        | inl ((heap, a), hit) ↦ rw hit (λ h. cc)
        | inr (_, miss) ↦ rw miss (elim (Result-cases (parts.fetch domain)) [
          | inr (_, no_file) ↦ rw no_file (λ h. (refl, refl, domain_error_of domain _ _ e h))
          | inl (content, file) ↦ rw file (elim (Result-cases (parts.parse content)) [
            | inr (_, bad) ↦ rw bad (λ h. (refl, refl, domain_error_of domain _ _ e h))
            | inl (entries, good) ↦ rw good (λ h. cc)
          ])
        ])
      ]

-- The service over the cache in memory.
abbrev pub memory_parts :
    (Text → Result (List AdsTxtEntry))
    → (Text → Result Text)
    → (Dict ℕ → List (Text × ℕ))
    → (Text → Result DomainAnalysis)
    → ℤ
    → Parts MemoryCache
memory_parts parse fetch order unmarshal ttl = record {
  parse = parse;
  fetch = fetch;
  domain_cache = over_memory unmarshal ttl;
  order = order;
}

module _ (parse : Text → Result (List AdsTxtEntry)) (order : Dict ℕ → List (Text × ℕ))
    (unmarshal : Text → Result DomainAnalysis) (ttl : ℤ) where
  -- A domain that is in the cache at an address is answered with this address, whatever the fetcher
  -- does, and the analysis there is then marked as cached.
  hit_answer :
      (fetch : Text → Result Text) (clock : Clock) (domain : Text) (w : World MemoryCache) (a : ℕ)
      (d : DomainAnalysis)
      → get_analysis (over_memory unmarshal ttl) clock.asked domain w.cache w.heap ≡ ok (w.heap, a)
      → load a w.heap ≡ some d
      → ((analyze_domain (memory_parts parse fetch order unmarshal ttl) clock domain w).1 ≡ ok a)
        × (load a
              (analyze_domain (memory_parts parse fetch order unmarshal ttl) clock domain w).0.heap
            ≡ some (record d { cached = true }))
  unfolding analyze_domain on_asked on_hit mark_cached
  hit_answer fetch clock domain w a d hit here =
      rw hit (refl, rw here (load-store a d (record d { cached = true }) w.heap here))

  ltb_of_le : {m n : ℕ} → m ≤ n → ltb n m ≡ false
  ltb_of_le h = ground arith

  -- The cache with an analysis at the default time to live.
  abbrev with_analysis : (now : ℕ) → Text → (address : ℕ) → MemoryCache → MemoryCache
  with_analysis now domain a m = record {
    entries =
        put (cache_key domain) (record { value = pointer a; expires_at = now + magnitude ttl })
          m.entries;
  }

  set_analysis_ok :
      (now : ℕ) (domain : Text) (a : ℕ) (heap : Heap) (m : MemoryCache)
      → not_positive ttl ≡ false
      → set_analysis (over_memory unmarshal ttl) now domain a (pos 0) heap m
        ≡ ok (with_analysis now domain a m)
  unfolding set_analysis memory_set
  set_analysis_ok now domain a heap m positive = rw positive refl

  -- What the end of a call leaves: a new analysis, not marked, at the address that it answers with,
  -- and the cache with this address.
  abbrev Leaves : Clock → Text → World MemoryCache → ℕ → World MemoryCache → Type 0
  Leaves clock domain w a w' =
      ((d : DomainAnalysis) × (load a w'.heap ≡ some d) × (d.cached ≡ false))
      × (set_analysis (over_memory unmarshal ttl) clock.stored domain a (pos 0) w'.heap w.cache
          ≡ ok w'.cache)

  parsed_answer :
      (fetch : Text → Result Text) (clock : Clock) (domain : Text) (w : World MemoryCache) (a : ℕ)
      (entries : List AdsTxtEntry)
      → not_positive ttl ≡ false
      → (let r =
            on_parsed (memory_parts parse fetch order unmarshal ttl) clock domain w (ok entries) in
          r.1 ≡ ok a → Leaves clock domain w a r.0)
  unfolding on_parsed on_cached build_analysis
  parsed_answer fetch clock domain w a entries positive h =
      let d = build_analysis order clock.built domain entries in
      let set =
        set_analysis_ok clock.stored domain (length w.heap) (w.heap ++ d ∷ []) w.cache positive in
      rw (set, ← ok-inj h) ((d, load-allocate d w.heap, refl), set)

  miss_answer :
      (fetch : Text → Result Text) (clock : Clock) (domain : Text) (w : World MemoryCache) (a : ℕ)
      → not_positive ttl ≡ false
      → Fails (get_analysis (over_memory unmarshal ttl) clock.asked domain w.cache w.heap)
      → (let r = analyze_domain (memory_parts parse fetch order unmarshal ttl) clock domain w in
          r.1 ≡ ok a → Leaves clock domain w a r.0)
  unfolding analyze_domain on_asked on_fetched
  miss_answer fetch clock domain w a positive (e, miss) =
      rw miss (elim (Result-cases (fetch domain)) [
        | inr (_, no_file) ↦ rw no_file (λ h. cc)
        | inl (content, file) ↦ rw file (elim (Result-cases (parse content)) [
          | inr (_, bad) ↦ rw bad (unfold on_parsed in λ h. cc)
          | inl (entries, good) ↦ rw good (parsed_answer fetch clock domain _ a entries positive)
        ])
      ])

  -- With the cache in memory and a positive time to live: after a call that missed and succeeded, a
  -- call for the same domain before this time is over answers with the same address, whatever its
  -- fetcher does. The analysis there was not marked as cached, and is afterwards: the holder of the
  -- first answer sees it change.
  pub analyze_domain-again :
      (fetch fetch' : Text → Result Text) (first second : Clock) (domain : Text)
      (w : World MemoryCache) (a : ℕ)
      → not_positive ttl ≡ false
      → Fails (get_analysis (over_memory unmarshal ttl) first.asked domain w.cache w.heap)
      → (analyze_domain (memory_parts parse fetch order unmarshal ttl) first domain w).1 ≡ ok a
      → second.asked ≤ first.stored + magnitude ttl
      → (let w' =
            (analyze_domain (memory_parts parse fetch order unmarshal ttl) first domain w).0 in
          let again =
            analyze_domain (memory_parts parse fetch' order unmarshal ttl) second domain w' in
          (again.1 ≡ ok a)
          × ((d : DomainAnalysis) × (load a w'.heap ≡ some d)
              × (d.cached ≡ false)
              × (load a again.0.heap ≡ some (record d { cached = true }))))
  analyze_domain-again fetch fetch' first second domain w a positive miss done in_time =
      let w' = (analyze_domain (memory_parts parse fetch order unmarshal ttl) first domain w).0 in
      let ((d, here, fresh), set) = miss_answer fetch first domain w a positive miss done in
      let hit =
        get_analysis-set_analysis unmarshal ttl (pos 0) first.stored second.asked domain domain a
          w'.heap w'.heap w.cache w'.cache set
        ∙ rw (text_eq_refl domain, ltb_of_le in_time) refl in
      let (same, marked) = hit_answer fetch' second domain w' a d hit here in
      (same, (d, here, fresh, marked))
