-- ===== src/Analysis/Shared/Examples.antt =====
-- Two calls for one domain that run at the same time, and the theorems on running calls there.
use perion_assignment.Common.{
  All, sum_of, length, ℕ, ◌≡◌, refl, true, false, Option, none, some, List, [], ◌∷◌, pos, sym, map,
  Bool,
}
use perion_assignment.Text.{Text, codes, text_eq}
use perion_assignment.Dict.{Dict, get, put}
use perion_assignment.Models.{DomainAnalysis, AdsTxtEntry}
use perion_assignment.Models.Errors.{domain_not_found, Result, ok, err}
use perion_assignment.Cache.{
  MemoryCache, new_memory_cache, memory_get, memory_set, is_expired, cleanup_expired,
}
use perion_assignment.Cache.DomainCache.{get_analysis, set_analysis, read_value}
use perion_assignment.Analysis.{less, insert_sorted, sort_slice, build_analysis}
use perion_assignment.Analysis.Service.{
  Parts, analyze_domain, on_asked, on_fetched, on_parsed, on_cached, on_hit, mark_cached,
}
use perion_assignment.Analysis.Service.Outcomes.{memory_parts}
use perion_assignment.Analysis.Shared.{
  asks, marks, fetches, parses, stores, holds, Input, on_looked, on_content, on_entries, on_built,
  advance, Seen, analysis, Answer, Pool, call, joins, goes, leaves, Run, rests, steps,
}
use perion_assignment.Analysis.Shared.Grows.{Grows}
use mathlib.Core.List.Perm
use perion_assignment.Parser.Count.{occurrences}
use perion_assignment.Analysis.{aggregate_results}
use perion_assignment.Analysis.Build.{IsOrder}
use perion_assignment.Analysis.Aggregate.{count_in}
use perion_assignment.Analysis.Shared.Totals.{chosen, result_of, File, IsServed, batch_totals}
use perion_assignment.Analysis.Shared.Answers.{AllAnswers, new_pool, Run-answers, Run-handed_out}

-- What the runs unfold.
shared : Unit {0}
unfolding text_eq get put new_memory_cache memory_get memory_set is_expired get_analysis
    set_analysis read_value less insert_sorted sort_slice build_analysis analyze_domain on_asked
    on_fetched on_parsed on_cached on_hit mark_cached on_looked on_content on_entries on_built
    advance
shared = tt

abbrev site : Text
site = codes "x.org"

abbrev file : Text
file = codes "a.com, 7, DIRECT"

abbrev entries : List AdsTxtEntry
entries =
    record {
      exchange_domain = codes "a.com";
      publisher_id = codes "7";
      account_type = codes "DIRECT";
      certification_auth = [];
    }
    ∷ []

abbrev parse_one : Text → Result (List AdsTxtEntry)
parse_one content = ok entries

abbrev in_order : Dict ℕ → List (Text × ℕ)
in_order m = m

abbrev no_json : Text → Result DomainAnalysis
no_json content = err domain_not_found

abbrev found : Text → Result Text
found domain = ok file

-- Every domain serves the one file.
abbrev Served : Text → Text → Type 0
Served domain content = content ≡ file

ok-inj : {a b : Text} → Path (Result Text) (ok a) (ok b) → a ≡ b
ok-inj h = cc

gives : (asked content : Text) → found asked ≡ ok content → Served asked content
gives asked content h = sym (ok-inj h)

in_order-IsOrder : IsOrder in_order
in_order-IsOrder m = Perm.refl m

abbrev parts : Parts MemoryCache
parts = memory_parts parse_one found in_order no_json (pos 100)

abbrev at : ℕ → Input
at now = record { clock = record { asked = now; built = now; stored = now }; fetch = found }

abbrev start : Pool MemoryCache
start = new_pool parse_one in_order Served no_json (pos 100) found

abbrev Moves : Pool MemoryCache → Pool MemoryCache → Type 0
Moves = Run parts cleanup_expired Served

-- Both calls miss, and each stores an analysis.
both_stored : (p : Pool MemoryCache) × Moves start p
unfolding shared
both_stored = (
  _,
  steps (joins site) (
      steps (joins site) (
        steps (goes [] (call site asks ∷ []) site asks (at 1) gives) (
          steps (goes (call site fetches ∷ []) [] site asks (at 2) gives) (
            steps (goes [] (call site fetches ∷ []) site fetches (at 3) gives) (
              steps (goes (call site (parses file) ∷ []) [] site fetches (at 4) gives) (
                steps (goes [] (call site (parses file) ∷ []) site (parses file) (at 5) gives) (
                  steps (goes (call site (stores entries) ∷ []) [] site (parses file) (at 6) gives)
                    (steps
                      (goes [] (call site (stores entries) ∷ []) site (stores entries) (at 7) gives)
                      (steps (goes (call site (holds 0) ∷ []) [] site (stores entries) (at 8) gives)
                        rests))))))))),
)

-- A third call finds the second analysis and marks it before the caller of the second one reads it.
read_late : (p : Pool MemoryCache) × Moves both_stored.0 p
unfolding shared both_stored
read_late = (
  _,
  steps (leaves [] (call site (holds 1) ∷ []) site 0) (
      steps (joins site) (
        steps (goes [] (call site (holds 1) ∷ []) site asks (at 9) gives) (
          steps (goes [] (call site (holds 1) ∷ []) site (marks 1) (at 10) gives)
            (steps (leaves (call site (holds 1) ∷ []) [] site 1) rests)))),
)

append : {p q r : Pool MemoryCache} → Moves p q → Moves q r → Moves p r
append rests run = run
append (steps step first) run = steps step (append first run)

-- The second call missed, and its answer says that it comes from the cache.
abbrev is_marked : Seen → Option Bool
is_marked (analysis (some x)) = some x.cached
is_marked _ = none

marked_answers :
    map (λ (a : Answer). is_marked a.seen) read_late.0.answers ≡ some true ∷ some false ∷ []
unfolding shared both_stored read_late
marked_answers = refl

Run-answers_example : AllAnswers parse_one in_order Served read_late.0.answers
Run-answers_example =
    Run-answers parse_one in_order Served no_json (pos 100) found read_late.0
      (append both_stored.1 read_late.1)

Run-handed_out_example : Grows both_stored.0.world.heap read_late.0.world.heap
Run-handed_out_example =
    Run-handed_out parse_one in_order Served no_json (pos 100) found both_stored.0 read_late.0
      both_stored.1 read_late.1

-- Of the two answers, a batch has the later one.
abbrev sent_at : Answer → ℕ
sent_at a = 11

batch_totals_example :
    (let r =
        aggregate_results in_order 12 1
          (map (result_of sent_at) (chosen (true ∷ []) read_late.0.answers)) in
      (files : List File) × All (IsServed parse_one in_order in_order-IsOrder Served sent_at) files
      × (r.summary.succeeded ≡ length files)
      × ((d : Text) → count_in d r.advertisers ≡ sum_of (λ x. occurrences d x.1) files)
      × (r.total_advertisers ≡ sum_of (λ x. length x.1) files))
batch_totals_example =
    batch_totals parse_one in_order in_order-IsOrder Served sent_at no_json (pos 100) found
      read_late.0 (true ∷ []) 12 1 (append both_stored.1 read_late.1)
