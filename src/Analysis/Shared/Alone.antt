-- ===== src/Analysis/Shared/Alone.antt =====
-- The steps of a call with no other between them, against `AnalyzeDomain` of
-- internal/domainAnalysis/analysis.go.
use perion_assignment.Common.{ℕ, zero, suc, ◌≡◌, refl, List}
use perion_assignment.Text.{Text}
use perion_assignment.Models.{AdsTxtEntry}
use perion_assignment.Models.Errors.{Result, ok, err}
use perion_assignment.Models.Heap.{Heap}
use perion_assignment.Cache.DomainCache.{get_analysis}
use perion_assignment.Analysis.Service.{
  Parts, World, Clock, analyze_domain, on_asked, on_fetched, on_parsed, on_hit, on_cached,
  mark_cached,
}
use perion_assignment.Analysis.Shared.{
  Phase, asks, holds, failed, Input, on_looked, on_content, on_entries, on_built, advance,
}

module _ {S : Type 0} (parts : Parts S) (clock : Clock) (domain : Text) where
  abbrev input : Input
  input = record { clock = clock; fetch = parts.fetch }

  -- A number of steps of one call.
  abbrev pub goes_on : ℕ → Phase × World S → Phase × World S
  goes_on zero x = x
  goes_on (suc n) (phase, w) = goes_on n (advance parts input domain phase w)

  -- The phase of a call that has answered.
  abbrev pub answered : Result ℕ → Phase
  answered (ok a) = holds a
  answered (err e) = failed e

  abbrev as_phase : World S × Result ℕ → Phase × World S
  as_phase (w, r) = (answered r, w)

  parsed_steps :
      (w : World S) (entries : Result (List AdsTxtEntry))
      → goes_on 1 (on_entries parts domain w entries)
        ≡ as_phase (on_parsed parts clock domain w entries)
  unfolding advance on_entries on_built on_parsed on_cached
  parsed_steps w (ok entries) = refl
  parsed_steps w (err e) = refl

  fetched_steps :
      (w : World S) (content : Result Text)
      → goes_on 2 (on_content parts domain w content)
        ≡ as_phase (on_fetched parts clock domain w content)
  unfolding advance on_content on_fetched
  fetched_steps w (ok content) = parsed_steps _ (parts.parse content)
  fetched_steps w (err e) = refl

  looked_steps :
      (w : World S) (found : Result (Heap × ℕ))
      → goes_on 3 (on_looked parts domain w found) ≡ as_phase (on_asked parts clock domain w found)
  unfolding advance on_looked on_asked on_hit mark_cached
  looked_steps w (ok (heap, a)) = refl
  looked_steps w (err e) = fetched_steps _ (parts.fetch domain)

  -- Four steps of a call with no other between them leave the state that `AnalyzeDomain` leaves, and
  -- the call has then answered as `AnalyzeDomain` answers.
  pub goes_on-four :
      (w : World S) → goes_on 4 (asks, w) ≡ as_phase (analyze_domain parts clock domain w)
  unfolding advance analyze_domain
  goes_on-four w =
      looked_steps w (get_analysis parts.domain_cache clock.asked domain w.cache w.heap)
