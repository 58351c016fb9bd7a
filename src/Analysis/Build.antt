-- ===== src/Analysis/Build.antt =====
-- `buildAnalysis`: what an analysis of one domain's entries says, in whatever order the map of
-- counts is visited.
use mathlib.Core.List.{Perm, Permᴰ}
use mathlib.Core.List.Perm
use mathlib.Core.Logic.{∥∥₁_elim}
use native.Mathlib.Nat.{ℕ_set}
use perion_assignment.Common.{ℕ, ◌≡◌, refl, ◌∙◌, false, List, [], ◌∷◌, arith, map, sum_of, length}
use perion_assignment.Text.{Text}
use perion_assignment.Dict.{Dict, IsDict, add_at}
use perion_assignment.Dict.Counts.{SameMap, SameMap-perm, add_at-SameMap, add_at_comm}
use perion_assignment.Parser.Count.{count_from, count_advertisers, count_advertisers_lem}
use perion_assignment.Models.{AdsTxtEntry, DomainAnalysis}
use perion_assignment.Analysis.{info, sorted_infos, build_analysis}
use perion_assignment.Analysis.Sort.{sort-Perm, sort_slice_lem, IsSorted}

-- `range` visits each entry of a map once.
abbrev pub IsOrder : (Dict ℕ → List (Text × ℕ)) → Type 0
IsOrder order = (m : Dict ℕ) → Perm (order m) m

sum_of-Permᴰ {ℓ} :
    {A : Type ℓ} (f : A → ℕ) {xs ys : List A} → Permᴰ xs ys → sum_of f xs ≡ sum_of f ys
sum_of-Permᴰ f Permᴰ.nil = refl
sum_of-Permᴰ f (Permᴰ.cons e p) = rw (e, sum_of-Permᴰ f p)
sum_of-Permᴰ f (Permᴰ.swap {a} {b} {l = l} e g) = rw (← e, ← g) (omega arith)
sum_of-Permᴰ f (Permᴰ.trans p q) = sum_of-Permᴰ f p ∙ sum_of-Permᴰ f q

pub sum_of-Perm {ℓ} :
    {A : Type ℓ} (f : A → ℕ) (xs ys : List A) → Perm xs ys → sum_of f xs ≡ sum_of f ys
sum_of-Perm f xs ys p = ∥∥₁_elim p (ℕ_set _ _) (sum_of-Permᴰ f)

-- Two visits to the same entries give the same advertisers.
pub sorted_infos-Perm : (xs ys : List (Text × ℕ)) → Perm xs ys → sorted_infos xs ≡ sorted_infos ys
unfolding sorted_infos
sorted_infos-Perm xs ys p = sort-Perm (map info xs) (map info ys) (Perm.map info p)

pub SameMap-sorted_infos :
    (order order' : Dict ℕ → List (Text × ℕ)) (m m' : Dict ℕ)
    → IsOrder order
    → IsOrder order'
    → IsDict m
    → IsDict m'
    → SameMap m m'
    → (sorted_infos (order m) ≡ sorted_infos (order' m'))
      × (sum_of (λ e. e.1) (order m) ≡ sum_of (λ e. e.1) (order' m'))
SameMap-sorted_infos order order' m m' o o' d d' same =
    let p = Perm.trans (o m) (Perm.trans (SameMap-perm m m' d d' same) (Perm.symm (o' m'))) in
    (sorted_infos-Perm (order m) (order' m') p, sum_of-Perm (λ e. e.1) (order m) (order' m') p)

count_from-SameMap :
    (m m' : Dict ℕ) (entries : List AdsTxtEntry)
    → SameMap m m'
    → SameMap (count_from m entries) (count_from m' entries)
unfolding count_from
count_from-SameMap m m' [] h = h
count_from-SameMap m m' (e ∷ entries) h =
    count_from-SameMap (add_at e.exchange_domain 1 m) (add_at e.exchange_domain 1 m') entries
      (add_at-SameMap e.exchange_domain 1 m m' h)

count_from-Permᴰ :
    (m : Dict ℕ) {es es' : List AdsTxtEntry}
    → Permᴰ es es'
    → SameMap (count_from m es) (count_from m es')
unfolding count_from
count_from-Permᴰ m Permᴰ.nil k = refl
count_from-Permᴰ m (Permᴰ.cons {a} {b} {l₁} {l₂} e p) k =
    rw e (count_from-Permᴰ (add_at b.exchange_domain 1 m) p k)
count_from-Permᴰ m (Permᴰ.swap {a} {b} {l = l} e f) k =
    rw (← e, ← f)
      (count_from-SameMap _ _ l (add_at_comm b.exchange_domain a.exchange_domain 1 1 m) k)
count_from-Permᴰ m (Permᴰ.trans p q) k = count_from-Permᴰ m p k ∙ count_from-Permᴰ m q k

counts-SameMap :
    {es es' : List AdsTxtEntry}
    → Permᴰ es es'
    → SameMap (count_advertisers es) (count_advertisers es')
unfolding count_advertisers
counts-SameMap p = count_from-Permᴰ [] p

module _ (order order' : Dict ℕ → List (Text × ℕ)) (o : IsOrder order) (o' : IsOrder order') where
  build_analysis-Permᴰ :
      (now : ℕ) (domain : Text) {es es' : List AdsTxtEntry}
      → Permᴰ es es'
      → build_analysis order now domain es ≡ build_analysis order' now domain es'
  unfolding build_analysis
  build_analysis-Permᴰ now domain {es} {es'} p =
      let (infos, sums) =
        SameMap-sorted_infos order order' (count_advertisers es) (count_advertisers es') o o'
          (count_advertisers_lem es).0 (count_advertisers_lem es').0 (counts-SameMap p) in
      λ i. record {
        domain = domain;
        total_advertisers = sums i;
        advertisers = infos i;
        cached = false;
        timestamp = now;
      }

  -- The analysis is the same for every order in which the map is visited and for every order of the
  -- entries.
  pub build_analysis-Perm :
      (now : ℕ) (domain : Text) (es es' : List AdsTxtEntry)
      → Perm es es'
      → build_analysis order now domain es ≡ build_analysis order' now domain es'
  build_analysis-Perm now domain es es' p =
      ∥∥₁_elim p (analysis_set _ _) (build_analysis-Permᴰ now domain)
    where
      analysis_set : IsSet DomainAnalysis
      analysis_set = hlevel

-- For every order of the map, the total is the number of entries, and the advertisers are the
-- domains with their counts, each once, by falling count and then by rising domain.
pub build_analysis_lem :
    (order : Dict ℕ → List (Text × ℕ)) (now : ℕ) (domain : Text) (entries : List AdsTxtEntry)
    → IsOrder order
    → ((build_analysis order now domain entries).total_advertisers ≡ length entries)
      × Perm
          (build_analysis order now domain entries).advertisers
          (map info (count_advertisers entries))
      × IsSorted (build_analysis order now domain entries).advertisers
unfolding build_analysis sorted_infos
build_analysis_lem order now domain entries o =
    let counts = count_advertisers entries in
    let (perm, sorted) = sort_slice_lem (map info (order counts)) in
    (
      sum_of-Perm (λ e. e.1) (order counts) counts (o counts) ∙ (count_advertisers_lem entries).3,
      Perm.trans perm (Perm.map info (o counts)),
      sorted,
    )
