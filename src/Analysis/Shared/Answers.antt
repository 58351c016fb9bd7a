-- ===== src/Analysis/Shared/Answers.antt =====
-- The answers of calls of internal/domainAnalysis/analysis.go that run at the same time over the cache
-- in memory.
use perion_assignment.Common.{
  ℕ, ◌≡◌, Bool, Option, none, some, List, [], ◌++◌, ℤ, All, All-imp, All-middle, All-insert, not,
  arith,
}
use perion_assignment.Text.{Text}
use perion_assignment.Dict.{Dict, get}
use perion_assignment.Dict.Laws.{get-keep_if, keep_if-IsDict, kept}
use perion_assignment.Models.{DomainAnalysis, AdsTxtEntry}
use perion_assignment.Models.Heap.{Heap}
use perion_assignment.Models.Errors.{GoError, domain_error, Result}
use perion_assignment.Cache.{CacheEntry, MemoryCache, new_memory_cache, is_expired, cleanup_expired}
use perion_assignment.Cache.DomainCache.{cache_key}
use perion_assignment.Analysis.Service.{Parts}
use perion_assignment.Analysis.Service.Outcomes.{memory_parts}
use perion_assignment.Analysis.Shared.{
  holds, failed, Call, advance, Seen, analysis, refused, Answer, Pool, call, pool, Step, joins,
  goes, leaves, leaves_refused, sweeps, Run, rests, steps,
}
use perion_assignment.Analysis.Shared.Grows.{Grows, Grows-refl, Grows-trans}
use perion_assignment.Analysis.Shared.Sound.{
  IsAnalysisOf, Coherent, IsSound, IsSound-Grows, advance-Advances,
}

module _ (parse : Text → Result (List AdsTxtEntry)) (order : Dict ℕ → List (Text × ℕ))
    (Served : (domain content : Text) → Type 0) where
  -- An answer is an analysis of a content that was served for its domain, or an error at the domain.
  abbrev pub IsAnswer : Text → Seen → Type 0
  IsAnswer domain (analysis found) =
      (x : DomainAnalysis) × (found ≡ some x) × IsAnalysisOf parse order Served domain x
  IsAnswer domain (refused e) =
      (message : Text) × (cause : GoError) × (e ≡ domain_error domain message cause)

  abbrev AllSound : Heap → List Call → Type 0
  AllSound heap = All (λ (c : Call). IsSound parse order Served c.domain heap c.phase)

  abbrev pub AllAnswers : List Answer → Type 0
  AllAnswers = All (λ (a : Answer). IsAnswer a.domain a.seen)

  record IsSoundPool (p : Pool MemoryCache) : Type 0 where
    coherent : Coherent parse order Served p.world.cache p.world.heap
    calls : AllSound p.world.heap p.calls
    answers : AllAnswers p.answers

  AllSound-grows :
      (heap heap' : Heap) (calls : List Call)
      → Grows heap heap'
      → AllSound heap calls
      → AllSound heap' calls
  AllSound-grows heap heap' calls g =
      All-imp _ _ calls (λ c. IsSound-Grows parse order Served c.domain heap heap' c.phase g)

  -- A sweep takes entries away.
  swept-Coherent :
      (now : ℕ) (m : MemoryCache) (heap : Heap)
      → Coherent parse order Served m heap
      → Coherent parse order Served (cleanup_expired now m) heap
  unfolding cleanup_expired
  swept-Coherent now m heap c = record {
    distinct = keep_if-IsDict _ m.entries c.distinct;
    entries = λ domain e h. c.entries domain e (
        was_there e (λ e. not (is_expired now e)) (get (cache_key domain) m.entries)
          (rw (get-keep_if (λ e. not (is_expired now e)) (cache_key domain) m.entries c.distinct) at
            h));
  }
    where
      was_there :
          (e : CacheEntry) (p : CacheEntry → Bool) (found : Option CacheEntry)
          → kept p found ≡ some e
          → found ≡ some e
      was_there e p none h = absurd (cc h)
      was_there e p (some v) h = ground arith

  module _ (unmarshal : Text → Result DomainAnalysis) (ttl : ℤ) (fetch : Text → Result Text) where
    abbrev parts : Parts MemoryCache
    parts = memory_parts parse fetch order unmarshal ttl

    Step-IsSoundPool :
        {p q : Pool MemoryCache}
        → Step parts cleanup_expired Served p q
        → IsSoundPool p
        → IsSoundPool q
    Step-IsSoundPool (joins domain) h = record {
      coherent = h.coherent;
      calls = (tt, h.calls);
      answers = h.answers;
    }
    Step-IsSoundPool (goes before after domain phase input {w = w} gives) h =
        let (own, others) = All-middle _ before (call domain phase) after h.calls in
        let (coherent, sound, grows) =
          advance-Advances parse order Served unmarshal ttl fetch input domain phase w gives
            h.coherent own in
        let (phase', w') = advance parts input domain phase w in
        record {
          coherent = coherent;
          calls =
              All-insert _ before (call domain phase') after sound
                (AllSound-grows w.heap w'.heap (before ++ after) grows others);
          answers = h.answers;
        }
    Step-IsSoundPool (leaves before after domain a) h =
        let (own, others) = All-middle _ before (call domain (holds a)) after h.calls in
        record { coherent = h.coherent; calls = others; answers = (own, h.answers) }
    Step-IsSoundPool (leaves_refused before after domain e) h =
        let (own, others) = All-middle _ before (call domain (failed e)) after h.calls in
        record { coherent = h.coherent; calls = others; answers = (own, h.answers) }
    Step-IsSoundPool (sweeps now {w = w}) h = record {
      coherent = swept-Coherent now w.cache w.heap h.coherent;
      calls = h.calls;
      answers = h.answers;
    }

    Run-IsSoundPool :
        {p q : Pool MemoryCache}
        → Run parts cleanup_expired Served p q
        → IsSoundPool p
        → IsSoundPool q
    Run-IsSoundPool rests h = h
    Run-IsSoundPool (steps step run) h = Run-IsSoundPool run (Step-IsSoundPool step h)

    abbrev pub new_pool : Pool MemoryCache
    new_pool = pool [] (record { cache = new_memory_cache; heap = []; log = [] }) []

    new_pool-IsSoundPool : IsSoundPool new_pool
    unfolding new_memory_cache get
    new_pool-IsSoundPool = record {
      coherent = record { distinct = tt; entries = λ domain e h. absurd (cc h) };
      calls = tt;
      answers = tt;
    }

    -- However the steps of the calls follow one another, with sweeps anywhere among them: from a new
    -- cache on, every call is answered with the analysis of a content that was served for its own
    -- domain, and parsed, built for this domain, and at most marked as cached since; or it fails with
    -- an error that names its domain.
    pub Run-answers :
        (p : Pool MemoryCache) → Run parts cleanup_expired Served new_pool p → AllAnswers p.answers
    Run-answers p run = (Run-IsSoundPool run new_pool-IsSoundPool).answers

    Step-Grows :
        {p q : Pool MemoryCache}
        → Step parts cleanup_expired Served p q
        → IsSoundPool p
        → Grows p.world.heap q.world.heap
    Step-Grows (joins domain {w = w}) h = Grows-refl w.heap
    Step-Grows (goes before after domain phase input {w = w} gives) h =
        let (own, _) = All-middle _ before (call domain phase) after h.calls in
        (advance-Advances parse order Served unmarshal ttl fetch input domain phase w gives
          h.coherent own).2
    Step-Grows (leaves before after domain a {w = w}) h = Grows-refl w.heap
    Step-Grows (leaves_refused before after domain e {w = w}) h = Grows-refl w.heap
    Step-Grows (sweeps now {w = w}) h = Grows-refl w.heap

    Run-Grows :
        {p q : Pool MemoryCache}
        → Run parts cleanup_expired Served p q
        → IsSoundPool p
        → Grows p.world.heap q.world.heap
    Run-Grows {p} rests h = Grows-refl p.world.heap
    Run-Grows {p} {q} (steps {q = m} step run) h =
        Grows-trans p.world.heap m.world.heap q.world.heap (Step-Grows step h)
          (Run-Grows run (Step-IsSoundPool step h))

    -- From any point on of a run that begins with a new cache, what stands at an address stays there:
    -- whatever the calls do, nothing of an analysis that was handed out changes but its mark, which is
    -- never taken back.
    pub Run-handed_out :
        (p q : Pool MemoryCache)
        → Run parts cleanup_expired Served new_pool p
        → Run parts cleanup_expired Served p q
        → Grows p.world.heap q.world.heap
    Run-handed_out p q first later = Run-Grows later (Run-IsSoundPool first new_pool-IsSoundPool)
