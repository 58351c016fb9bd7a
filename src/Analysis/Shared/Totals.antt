-- ===== src/Analysis/Shared/Totals.antt =====
-- What a batch answers in internal/domainAnalysis/analysis.go when its calls run at the same time as
-- others: the sums of `aggregateResults` over the contents that were served.
use perion_assignment.Common.{
  ℕ, ◌≡◌, refl, ◌∙◌, ap, sym, Bool, true, false, Option, none, some, List, [], ◌∷◌, ℤ, All, map,
  sum_of, length, arith,
}
use perion_assignment.Text.{Text, codes}
use perion_assignment.Dict.{Dict}
use perion_assignment.Dict.Counts.{total}
use perion_assignment.Models.{AdsTxtEntry, DomainAnalysis, DomainResult}
use perion_assignment.Models.Errors.{plain, Result, ok, err}
use perion_assignment.Parser.Count.{count_advertisers, count_advertisers_lem, occurrences}
use perion_assignment.Cache.{MemoryCache, cleanup_expired}
use perion_assignment.Analysis.{build_analysis, aggregate_results, info}
use perion_assignment.Analysis.Build.{IsOrder, build_analysis_lem, sum_of-Perm}
use perion_assignment.Analysis.Aggregate.{
  successes, count_in, counted, count_in-infos, aggregate_results_lem,
}
use perion_assignment.Analysis.Batch.{domain_result}
use perion_assignment.Analysis.Shared.{Seen, analysis, refused, Answer, Pool, Run}
use perion_assignment.Analysis.Shared.Sound.{IsAnalysisOf, parts}
use perion_assignment.Analysis.Shared.Answers.{IsAnswer, new_pool, Run-answers}

-- The answers that a mask chooses.
abbrev pub chosen : {A : Type 0} → List Bool → List A → List A
chosen [] xs = []
chosen (b ∷ mask) [] = []
chosen (true ∷ mask) (x ∷ xs) = x ∷ chosen mask xs
chosen (false ∷ mask) (x ∷ xs) = chosen mask xs

All-chosen :
    {A : Type 0} (P : A → Type 0) (mask : List Bool) (xs : List A)
    → All P xs
    → All P (chosen mask xs)
All-chosen P [] xs h = tt
All-chosen P (b ∷ mask) [] h = tt
All-chosen P (true ∷ mask) (x ∷ xs) (p, h) = (p, All-chosen P mask xs h)
All-chosen P (false ∷ mask) (x ∷ xs) (p, h) = All-chosen P mask xs h

-- What a worker reads of its call, and the result that it sends.
abbrev pub read : Seen → Result DomainAnalysis
read (analysis (some x)) = ok x
read (analysis none) = err (plain (codes "nil analysis"))
read (refused e) = err e

abbrev pub result_of : (Answer → ℕ) → Answer → DomainResult
result_of sent_at a = domain_result (sent_at a) a.domain (read a.seen)

some-inj : {x y : DomainAnalysis} → Path (Option DomainAnalysis) (some x) (some y) → x ≡ y
some-inj h = cc

-- The advertisers of an analysis, against its entries.
module _ (order : Dict ℕ → List (Text × ℕ)) (o : IsOrder order) where
  count_in-build_analysis :
      (d domain : Text) (now : ℕ) (entries : List AdsTxtEntry)
      → count_in d (build_analysis order now domain entries).advertisers ≡ occurrences d entries
  count_in-build_analysis d domain now entries =
      let (_, perm, _) = build_analysis_lem order now domain entries o in
      let (distinct, positive, counts, sums) = count_advertisers_lem entries in
      sum_of-Perm _ _ _ perm ∙ count_in-infos d (count_advertisers entries) distinct ∙ counts d

  counts-build_analysis :
      (domain : Text) (now : ℕ) (entries : List AdsTxtEntry)
      → sum_of (λ a. a.count) (build_analysis order now domain entries).advertisers ≡ length entries
  counts-build_analysis domain now entries =
      let (_, perm, _) = build_analysis_lem order now domain entries o in
      sum_of-Perm _ _ _ perm
      ∙ total_infos (count_advertisers entries)
      ∙ (count_advertisers_lem entries).3
    where
      total_infos : (m : Dict ℕ) → sum_of (λ a. a.count) (map info m) ≡ total m
      total_infos [] = refl
      total_infos ((k, n) ∷ m) = omega (arith, total_infos m)

-- A domain, and the entries of its file.
abbrev pub File : Type 0
File = Text × List AdsTxtEntry

module _ (parse : Text → Result (List AdsTxtEntry)) (order : Dict ℕ → List (Text × ℕ))
    (o : IsOrder order) (Served : (domain content : Text) → Type 0) (sent_at : Answer → ℕ) where
  -- A file whose content was served for its domain.
  abbrev pub IsServed : File → Type 0
  IsServed (domain, entries) =
      (content : Text) × Served domain content × (parse content ≡ ok entries)

  -- The files behind results: one for each success.
  record IsCounted (results : List DomainResult) (files : List File) : Type 0 where
    served : All IsServed files
    one_each : length files ≡ successes results
    counts : (d : Text) → counted (count_in d) results ≡ sum_of (λ x. occurrences d x.1) files
    sums : counted (sum_of (λ a. a.count)) results ≡ sum_of (λ x. length x.1) files

  file_of :
      (domain : Text) (x : DomainAnalysis) (now : ℕ) (results : List DomainResult)
      → IsAnalysisOf parse order Served domain x
      → (files : List File) × IsCounted results files
      → (files : List File) × IsCounted (domain_result now domain (ok x) ∷ results) files
  unfolding domain_result
  file_of domain x now results h (files, c) =
      let same = ap (λ (d : DomainAnalysis). d.advertisers) h.same in
      (
        (domain, h.entries) ∷ files,
        record {
          served = ((h.content, h.served, h.parsed), c.served);
          one_each = omega (arith, c.one_each);
          counts = λ d. omega (
            arith,
            c.counts d,
            ap (count_in d) same,
            count_in-build_analysis order o d domain h.built h.entries,
          );
          sums = omega (
            arith,
            c.sums,
            ap (sum_of (λ a. a.count)) same,
            counts-build_analysis order o domain h.built h.entries,
          );
        },
      )

  -- One answer more.
  files_with :
      (domain : Text) (seen : Seen) (now : ℕ) (results : List DomainResult)
      → IsAnswer parse order Served domain seen
      → (files : List File) × IsCounted results files
      → (files : List File) × IsCounted (domain_result now domain (read seen) ∷ results) files
  unfolding domain_result
  files_with domain (analysis none) now results (x, e, h) behind = absurd (cc e)
  files_with domain (analysis (some y)) now results (x, e, h) behind =
      rw (some-inj e) (file_of domain x now results h behind)
  files_with domain (refused e) now results h (files, c) = (
    files,
    record {
      served = c.served;
      one_each = omega (arith, c.one_each);
      counts = λ d. omega (arith, c.counts d);
      sums = omega (arith, c.sums);
    },
  )

  files_of :
      (answers : List Answer)
      → All (λ a. IsAnswer parse order Served a.domain a.seen) answers
      → (files : List File) × IsCounted (map (result_of sent_at) answers) files
  files_of [] h = ([], record { served = tt; one_each = refl; counts = λ d. refl; sums = refl })
  files_of (a ∷ answers) (h, rest) =
      files_with a.domain a.seen (sent_at a) (map (result_of sent_at) answers) h
        (files_of answers rest)

  module _ (unmarshal : Text → Result DomainAnalysis) (ttl : ℤ) (fetch : Text → Result Text) where
    -- The answer to a batch whose calls have run among others, from a new cache on, whichever of the
    -- answers are the batch's own: there is a file for each success, with a content that was served
    -- for its domain and parsed; each advertiser is counted as often as the entries of these files
    -- name it, and the total is the number of these entries.
    pub batch_totals :
        (p : Pool MemoryCache) (mask : List Bool) (now n : ℕ)
        → Run
            (parts parse order Served unmarshal ttl fetch)
            cleanup_expired
            Served
            (new_pool parse order Served unmarshal ttl fetch)
            p
        → (let r =
              aggregate_results order now n (map (result_of sent_at) (chosen mask p.answers)) in
            (files : List File) × All IsServed files
            × (r.summary.succeeded ≡ length files)
            × ((d : Text) → count_in d r.advertisers ≡ sum_of (λ x. occurrences d x.1) files)
            × (r.total_advertisers ≡ sum_of (λ x. length x.1) files))
    batch_totals p mask now n run =
        let sound = Run-answers parse order Served unmarshal ttl fetch p run in
        let (files, c) = files_of (chosen mask p.answers) (All-chosen _ mask p.answers sound) in
        let (_, good, _, counts, sums, _) =
          aggregate_results_lem order o now n (map (result_of sent_at) (chosen mask p.answers)) in
        (files, c.served, good ∙ sym c.one_each, (λ d. counts d ∙ c.counts d), sums ∙ c.sums)
