-- ===== src/Analysis/Aggregate/Arrival.antt =====
-- The answer to a batch does not hang on the order in which the workers finish.
use mathlib.Core.List.{Perm, Permᴰ}
use mathlib.Core.Logic.{∥∥₁_elim}
use perion_assignment.Common.{ℕ, ◌≡◌, refl, sym, ◌∙◌, List, [], ◌∷◌, arith, Bool-cases, inl, inr}
use perion_assignment.Text.{Text}
use perion_assignment.Dict.{Dict, add_at}
use perion_assignment.Dict.Counts.{SameMap, add_at-SameMap, add_at_comm}
use perion_assignment.Models.{AdvertiserInfo, DomainResult, BatchSummary}
use perion_assignment.Analysis.{Gathered, add_all, gather, gather_all, aggregate_results}
use perion_assignment.Analysis.Build.{IsOrder, SameMap-sorted_infos}
use perion_assignment.Analysis.Aggregate.{start, gather_all-IsDict}

add_all-SameMap :
    (infos : List AdvertiserInfo) (m m' : Dict ℕ)
    → SameMap m m'
    → SameMap (add_all infos m) (add_all infos m')
unfolding add_all
add_all-SameMap [] m m' h = h
add_all-SameMap (a ∷ infos) m m' h =
    add_all-SameMap infos (add_at a.domain a.count m) (add_at a.domain a.count m')
      (add_at-SameMap a.domain a.count m m' h)

add_all-add_at :
    (infos : List AdvertiserInfo) (k : Text) (n : ℕ) (m : Dict ℕ)
    → SameMap (add_all infos (add_at k n m)) (add_at k n (add_all infos m))
unfolding add_all
add_all-add_at [] k n m j = refl
add_all-add_at (a ∷ infos) k n m j =
    add_all-SameMap infos _ _ (add_at_comm a.domain k a.count n m) j
    ∙ add_all-add_at infos k n (add_at a.domain a.count m) j

add_all_comm :
    (xs ys : List AdvertiserInfo) (m : Dict ℕ)
    → SameMap (add_all xs (add_all ys m)) (add_all ys (add_all xs m))
unfolding add_all
add_all_comm [] ys m j = refl
add_all_comm (a ∷ xs) ys m j =
    add_all-SameMap xs _ _ (λ k. sym (add_all-add_at ys a.domain a.count m k)) j
    ∙ add_all_comm xs ys (add_at a.domain a.count m) j

-- Two states of the loop that answer alike.
abbrev SameGathered : Gathered → Gathered → Type 0
SameGathered g g' = SameMap g.counts g'.counts × (g.summary ≡ g'.summary)

gather-Same :
    (r : DomainResult) (g g' : Gathered)
    → SameGathered g g'
    → SameGathered (gather r g) (gather r g')
unfolding gather
gather-Same r g g' h = elim (Bool-cases r.success) [
  | inl won ↦ rw won (add_all-SameMap r.advertisers g.counts g'.counts h.0, ground arith)
  | inr lost ↦ rw lost (h.0, ground arith)
]

gather_comm :
    (r s : DomainResult) (g : Gathered)
    → SameGathered (gather r (gather s g)) (gather s (gather r g))
unfolding gather
gather_comm r s g = elim (Bool-cases r.success) [
  | inl won ↦ elim (Bool-cases s.success) [
    | inl won' ↦ rw (won, won') (add_all_comm r.advertisers s.advertisers g.counts, refl)
    | inr lost' ↦ rw (won, lost') ((λ k. refl), refl)
  ]
  | inr lost ↦ elim (Bool-cases s.success) [
    | inl won' ↦ rw (lost, won') ((λ k. refl), refl)
    | inr lost' ↦ rw (lost, lost') ((λ k. refl), refl)
  ]
]

gather_all-Same :
    (rs : List DomainResult) (g g' : Gathered)
    → SameGathered g g'
    → SameGathered (gather_all rs g) (gather_all rs g')
unfolding gather_all
gather_all-Same [] g g' h = h
gather_all-Same (r ∷ rs) g g' h =
    gather_all-Same rs (gather r g) (gather r g') (gather-Same r g g' h)

gather_all-Permᴰ :
    (g : Gathered) {rs rs' : List DomainResult}
    → Permᴰ rs rs'
    → SameGathered (gather_all rs g) (gather_all rs' g)
unfolding gather_all
gather_all-Permᴰ g Permᴰ.nil = ((λ k. refl), refl)
gather_all-Permᴰ g (Permᴰ.cons {a} {b} e p) = rw e (gather_all-Permᴰ (gather b g) p)
gather_all-Permᴰ g (Permᴰ.swap {a} {b} {l = l} e f) =
    rw (← e, ← f)
      (gather_all-Same l (gather b (gather a g)) (gather a (gather b g)) (gather_comm b a g))
gather_all-Permᴰ g (Permᴰ.trans p q) =
    let h = gather_all-Permᴰ g p in
    let k = gather_all-Permᴰ g q in ((λ j. h.0 j ∙ k.0 j), h.1 ∙ k.1)

-- What of a batch's answer does not name the order of arrival.
abbrev pub Digest : Type 0
Digest = List AdvertiserInfo × ℕ × BatchSummary

abbrev pub digest : (Dict ℕ → List (Text × ℕ)) → (now n : ℕ) → List DomainResult → Digest
digest order now n arrived =
    let r = aggregate_results order now n arrived in (r.advertisers, r.total_advertisers, r.summary)

module _ (order order' : Dict ℕ → List (Text × ℕ)) (o : IsOrder order) (o' : IsOrder order') where
  digest-Permᴰ :
      (now n : ℕ) {rs rs' : List DomainResult}
      → Permᴰ rs rs'
      → digest order now n rs ≡ digest order' now n rs'
  unfolding aggregate_results
  digest-Permᴰ now n {rs} {rs'} p =
      let (counts, summary) = gather_all-Permᴰ (start n) p in
      let (infos, sums) =
        SameMap-sorted_infos order order' _ _ o o' (gather_all-IsDict rs (start n) tt)
          (gather_all-IsDict rs' (start n) tt) counts in
      λ i. (infos i, sums i, summary i)

  -- The advertisers, the total and the summary of a batch are the same for every order in which the
  -- results arrive and for every order in which the map is visited.
  pub digest-Perm :
      (now n : ℕ) (rs rs' : List DomainResult)
      → Perm rs rs'
      → digest order now n rs ≡ digest order' now n rs'
  digest-Perm now n rs rs' p = ∥∥₁_elim p (digest_set _ _) (digest-Permᴰ now n)
    where
      digest_set : IsSet Digest
      digest_set = hlevel
