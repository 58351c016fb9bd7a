-- ===== src/Models/Heap.antt =====
-- The analyses that the process shares: a `*models.DomainAnalysis` is an address in a heap, since
-- internal/domainAnalysis/analysis.go writes through a pointer that a cache may hold too.
use perion_assignment.Common.{
  ℕ, zero, suc, ◌≡◌, refl, Option, none, some, List, [], ◌∷◌, ◌++◌, length,
}
use perion_assignment.Models.{DomainAnalysis}

-- The analyses that have been allocated, by address.
abbrev pub Heap : Type 0
Heap = List DomainAnalysis

abbrev pub load : ℕ → Heap → Option DomainAnalysis
load a [] = none
load zero (d ∷ heap) = some d
load (suc a) (d ∷ heap) = load a heap

-- A write through a pointer.
abbrev pub store : ℕ → DomainAnalysis → Heap → Heap
store a d [] = []
store zero d (c ∷ heap) = d ∷ heap
store (suc a) d (c ∷ heap) = c ∷ store a d heap

-- `&d` for a new variable: the heap with it, and its address.
abbrev pub allocate : DomainAnalysis → Heap → Heap × ℕ
allocate d heap = (heap ++ d ∷ [], length heap)

pub load-allocate :
    (d : DomainAnalysis) (heap : Heap) → load (allocate d heap).1 (allocate d heap).0 ≡ some d
load-allocate d [] = refl
load-allocate d (c ∷ heap) = load-allocate d heap

pub load-store :
    (a : ℕ) (c d : DomainAnalysis) (heap : Heap)
    → load a heap ≡ some c
    → load a (store a d heap) ≡ some d
load-store a c d [] h = cc
load-store zero c d (e ∷ heap) h = refl
load-store (suc a) c d (e ∷ heap) h = load-store a c d heap h
