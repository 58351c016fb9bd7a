-- ===== src/Analysis/Shared/Grows.antt =====
-- What running calls of internal/domainAnalysis/analysis.go make of the analyses that they share.
use perion_assignment.Common.{
  ℕ, zero, suc, ◌≡◌, refl, ◌∙◌, ap, sym, true, Option, none, some, [], ◌∷◌, ◌++◌,
}
use perion_assignment.Models.{DomainAnalysis}
use perion_assignment.Models.Heap.{Heap, load, store, allocate}
use perion_assignment.Analysis.Service.{flagged, mark_cached}

-- An analysis that was marked as cached, or not, but is otherwise as it was.
pub record IsMarked (x y : DomainAnalysis) : Type 0 where
  pub same : y ≡ record x { cached = y.cached }
  pub stays : x.cached ≡ true → y.cached ≡ true

-- What stands at an address stays there, up to its mark.
abbrev pub Grows : Heap → Heap → Type 0
Grows heap heap' =
    (a : ℕ) (x : DomainAnalysis)
    → load a heap ≡ some x
    → (y : DomainAnalysis) × (load a heap' ≡ some y) × IsMarked x y

IsMarked-refl : (x : DomainAnalysis) → IsMarked x x
IsMarked-refl x = record { same = refl; stays = λ h. h }

IsMarked-trans : {x y z : DomainAnalysis} → IsMarked x y → IsMarked y z → IsMarked x z
IsMarked-trans {x} {y} {z} h k = record {
  same = k.same ∙ ap (λ (d : DomainAnalysis). record d { cached = z.cached }) h.same;
  stays = λ c. k.stays (h.stays c);
}

pub Grows-refl : (heap : Heap) → Grows heap heap
Grows-refl heap a x h = (x, h, IsMarked-refl x)

pub Grows-trans : (h1 h2 h3 : Heap) → Grows h1 h2 → Grows h2 h3 → Grows h1 h3
Grows-trans h1 h2 h3 g g' a x h =
    let (y, at_y, m) = g a x h in let (z, at_z, m') = g' a y at_y in (z, at_z, IsMarked-trans m m')

load-append :
    (a : ℕ) (x d : DomainAnalysis) (heap : Heap)
    → load a heap ≡ some x
    → load a (heap ++ d ∷ []) ≡ some x
load-append a x d [] h = absurd (cc h)
load-append zero x d (c ∷ heap) h = h
load-append (suc a) x d (c ∷ heap) h = load-append a x d heap h

pub Grows-allocate : (d : DomainAnalysis) (heap : Heap) → Grows heap (allocate d heap).0
Grows-allocate d heap a x h = (x, load-append a x d heap h, IsMarked-refl x)

some-inj : {x y : DomainAnalysis} → Path (Option DomainAnalysis) (some x) (some y) → x ≡ y
some-inj h = cc

-- A write at one address.
Grows-store :
    (b : ℕ) (c : DomainAnalysis) (heap : Heap)
    → load b heap ≡ some c
    → Grows heap (store b (record c { cached = true }) heap)
Grows-store b c [] here a x h = absurd (cc h)
Grows-store zero c (d ∷ heap) here zero x h = (
  record c { cached = true },
  refl,
  record {
    same = ap (λ (d : DomainAnalysis). record d { cached = true }) (some-inj (sym here ∙ h));
    stays = λ _. refl;
  },
)
Grows-store zero c (d ∷ heap) here (suc a) x h = (x, h, IsMarked-refl x)
Grows-store (suc b) c (d ∷ heap) here zero x h = (x, h, IsMarked-refl x)
Grows-store (suc b) c (d ∷ heap) here (suc a) x h = Grows-store b c heap here a x h

pub Grows-mark_cached : (b : ℕ) (heap : Heap) → Grows heap (mark_cached b heap)
unfolding mark_cached
Grows-mark_cached b heap = go (load b heap) refl
  where
    go : (found : Option DomainAnalysis) → load b heap ≡ found → Grows heap (flagged found b heap)
    go none h = Grows-refl heap
    go (some c) h = Grows-store b c heap h
