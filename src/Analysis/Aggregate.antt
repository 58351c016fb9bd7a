-- ===== src/Analysis/Aggregate.antt =====
-- `aggregateResults`: the summary of a batch and its advertisers, for every order of arrival.
pub mod Arrival
use mathlib.Core.List.{Perm, Permᴰ}
use mathlib.Core.List.Perm
use mathlib.Core.Logic.{∥∥₁_elim}
use perion_assignment.Common.{
  ℕ, zero, suc, ◌+◌, ◌≤◌, ◌<◌, ◌≡◌, refl, sym, ◌∙◌, ap, Bool, true, false, List, [], ◌∷◌,
  if◌then◌else◌, arith, Bool-cases, inl, inr, map, sum_of, length, ◌&&◌, none,
}
use perion_assignment.Text.{Text, text_eq, text_eq_iff}
use perion_assignment.Dict.{Dict, get, IsDict, at, add_at}
use perion_assignment.Dict.Counts.{
  total, SameMap, add_at-SameMap, add_at_comm, at-add_at, total-add_at, add_at-IsDict,
}
use perion_assignment.Models.{AdvertiserInfo, DomainResult, BatchSummary}
use perion_assignment.Analysis.{
  info, sorted_infos, Gathered, add_all, gather, gather_all, aggregate_results,
}
use perion_assignment.Analysis.Sort.{IsSorted, sort_slice_lem}
use perion_assignment.Analysis.Build.{IsOrder, sum_of-Perm, SameMap-sorted_infos}

-- How many results succeeded, and what they count for a domain and in all.
abbrev pub successes : List DomainResult → ℕ
successes results = sum_of (λ r. if r.success then 1 else 0) results

abbrev pub count_in : Text → List AdvertiserInfo → ℕ
count_in d infos = sum_of (λ a. if text_eq a.domain d then a.count else 0) infos

abbrev pub counted : (List AdvertiserInfo → ℕ) → List DomainResult → ℕ
counted f results = sum_of (λ r. if r.success then f r.advertisers else 0) results

at-add_all :
    (d : Text) (infos : List AdvertiserInfo) (m : Dict ℕ)
    → at d (add_all infos m) ≡ at d m + count_in d infos
unfolding add_all
at-add_all d [] m = omega arith
at-add_all d (a ∷ infos) m =
    omega (arith, at-add_all d infos (add_at a.domain a.count m), at-add_at d a.domain a.count m)

total-add_all :
    (infos : List AdvertiserInfo) (m : Dict ℕ)
    → total (add_all infos m) ≡ total m + sum_of (λ a. a.count) infos
unfolding add_all
total-add_all [] m = omega arith
total-add_all (a ∷ infos) m =
    omega (arith, total-add_all infos (add_at a.domain a.count m), total-add_at a.domain a.count m)

add_all-IsDict : (infos : List AdvertiserInfo) (m : Dict ℕ) → IsDict m → IsDict (add_all infos m)
unfolding add_all
add_all-IsDict [] m h = h
add_all-IsDict (a ∷ infos) m h =
    add_all-IsDict infos (add_at a.domain a.count m) (add_at-IsDict a.domain a.count m h)

-- What the loop has gathered, as sums over the results.
record IsGathered (g g' : Gathered) (results : List DomainResult) : Type 0 where
  dict : IsDict g.counts → IsDict g'.counts
  totals : g'.summary.total ≡ g.summary.total
  good : g'.summary.succeeded ≡ g.summary.succeeded + successes results
  both :
      g'.summary.succeeded + g'.summary.failed
      ≡ g.summary.succeeded + g.summary.failed + length results
  counts : (d : Text) → at d g'.counts ≡ at d g.counts + counted (count_in d) results
  sums : total g'.counts ≡ total g.counts + counted (sum_of (λ a. a.count)) results

gather-IsGathered : (r : DomainResult) (g : Gathered) → IsGathered g (gather r g) (r ∷ [])
unfolding gather
gather-IsGathered r g = elim (Bool-cases r.success) [
  | inl won ↦ rw won (record {
    dict = add_all-IsDict r.advertisers g.counts;
    totals = refl;
    good = ground arith;
    both = ground arith;
    counts = λ d. ground (arith, at-add_all d r.advertisers g.counts);
    sums = ground (arith, total-add_all r.advertisers g.counts);
  })
  | inr lost ↦ rw lost (record {
    dict = λ h. h;
    totals = refl;
    good = ground arith;
    both = ground arith;
    counts = λ d. ground arith;
    sums = ground arith;
  })
]

then-IsGathered :
    (r : DomainResult) (results : List DomainResult) (g g' g'' : Gathered)
    → IsGathered g g' (r ∷ [])
    → IsGathered g' g'' results
    → IsGathered g g'' (r ∷ results)
then-IsGathered r results g g' g'' h k = record {
  dict = λ d. k.dict (h.dict d);
  totals = k.totals ∙ h.totals;
  good = ground (arith, h.good, k.good);
  both = ground (arith, h.both, k.both);
  counts = λ d. ground (arith, h.counts d, k.counts d);
  sums = ground (arith, h.sums, k.sums);
}

gather_all-IsGathered :
    (results : List DomainResult) (g : Gathered) → IsGathered g (gather_all results g) results
unfolding gather_all
gather_all-IsGathered [] g = record {
  dict = λ h. h;
  totals = refl;
  good = omega arith;
  both = omega arith;
  counts = λ d. omega arith;
  sums = omega arith;
}
gather_all-IsGathered (r ∷ results) g =
    then-IsGathered r results g (gather r g) (gather_all results (gather r g))
      (gather-IsGathered r g) (gather_all-IsGathered results (gather r g))

absent_count : (d : Text) (m : Dict ℕ) → get d m ≡ none → count_in d (map info m) ≡ 0
unfolding get
absent_count d [] h = refl
absent_count d ((k, n) ∷ m) h = ground (arith, absent_count d m)

pub count_in-infos : (d : Text) (m : Dict ℕ) → IsDict m → count_in d (map info m) ≡ at d m
unfolding at get
count_in-infos d [] h = refl
count_in-infos d ((k, n) ∷ m) h = elim (Bool-cases (text_eq k d)) [
  | inl same ↦
      let absent : get d m ≡ none = rw ((text_eq_iff k d).0 same) at (h.0) in
      rw same (omega (arith, absent_count d m absent))
  | inr other ↦ rw other (omega (arith, count_in-infos d m h.1))
]

abbrev pub start : ℕ → Gathered
start n = record { counts = []; summary = record { total = n; succeeded = 0; failed = 0 } }

module _ (order : Dict ℕ → List (Text × ℕ)) (o : IsOrder order) where
  visited_counts :
      (m : Dict ℕ)
      → IsDict m
      → ((d : Text) → count_in d (sorted_infos (order m)) ≡ at d m)
        × IsSorted (sorted_infos (order m))
  unfolding sorted_infos
  visited_counts m h =
      let (perm, sorted) = sort_slice_lem (map info (order m)) in
      let same = Perm.trans perm (Perm.map info (o m)) in
      ((λ d. sum_of-Perm _ _ _ same ∙ count_in-infos d m h), sorted)

  -- Every order of the map gives this answer to a batch: each result is counted once, as a success or
  -- as a failure; each domain's count is the sum of its counts in the successful results, the total
  -- is the sum of all of these, and the advertisers are sorted.
  pub aggregate_results_lem :
      (now n : ℕ) (arrived : List DomainResult)
      → (let r = aggregate_results order now n arrived in
          (r.summary.total ≡ n)
          × (r.summary.succeeded ≡ successes arrived)
          × (r.summary.succeeded + r.summary.failed ≡ length arrived)
          × ((d : Text) → count_in d r.advertisers ≡ counted (count_in d) arrived)
          × (r.total_advertisers ≡ counted (sum_of (λ a. a.count)) arrived)
          × IsSorted r.advertisers)
  unfolding aggregate_results
  aggregate_results_lem now n arrived =
      let h = gather_all-IsGathered arrived (start n) in
      let dict = h.dict tt in
      let (counts, sorted) = visited_counts (gather_all arrived (start n)).counts dict in
      (
        h.totals,
        h.good ∙ omega arith,
        h.both ∙ omega arith,
        (λ d. counts d ∙ h.counts d ∙ nothing d arrived),
        sum_of-Perm (λ e. e.1) _ _ (o (gather_all arrived (start n)).counts) ∙ h.sums ∙ omega arith,
        sorted,
      )
    where
      nothing :
          (d : Text) (rs : List DomainResult)
          → at d [] + counted (count_in d) rs ≡ counted (count_in d) rs
      nothing d rs = unfold at get in omega arith

pub gather_all-IsDict :
    (rs : List DomainResult) (g : Gathered) → IsDict g.counts → IsDict (gather_all rs g).counts
gather_all-IsDict rs g h = (gather_all-IsGathered rs g).dict h
