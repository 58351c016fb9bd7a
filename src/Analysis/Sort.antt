-- ===== src/Analysis/Sort.antt =====
-- The order of the advertisers: by falling count, then by rising domain, with no choice left.
use mathlib.Core.List.{Perm, Permᴰ}
use mathlib.Core.List.Perm
use mathlib.Core.Logic.{∥∥₁_elim}
use perion_assignment.Common.{
  ◌≡◌, refl, sym, ◌∙◌, true, false, List, [], ◌∷◌, arith, Bool-cases, inl, inr,
}
use perion_assignment.Text.Order.{text_lt_irrefl, text_lt_trans, text_lt_total}
use perion_assignment.Models.{AdvertiserInfo}
use perion_assignment.Analysis.{less, insert_sorted, sort_slice}

less_irrefl : (a : AdvertiserInfo) → less a a ≡ false
unfolding less
less_irrefl a = ground (arith, text_lt_irrefl a.domain)

less_trans : (a b c : AdvertiserInfo) → less a b ≡ true → less b c ≡ true → less a c ≡ true
unfolding less
less_trans a b c h k = ground (arith, text_lt_trans a.domain b.domain c.domain)

less_total : (a b : AdvertiserInfo) → less a b ≡ false → less b a ≡ false → a ≡ b
unfolding less
less_total a b h k = ground (arith, text_lt_total a.domain b.domain)

-- The order of two insertions does not matter.
insert_comm :
    (a b : AdvertiserInfo) (l : List AdvertiserInfo)
    → insert_sorted a (insert_sorted b l) ≡ insert_sorted b (insert_sorted a l)
unfolding insert_sorted
insert_comm a b [] = ground (arith, less_total a b, less_trans a b a, less_irrefl a)
insert_comm a b (c ∷ l) = ground (
  arith,
  insert_comm a b l,
  less_total a b,
  less_total b c,
  less_total a c,
  less_trans a b a,
  less_trans a b c,
  less_trans b a c,
  less_trans c a b,
  less_trans c b a,
  less_irrefl a,
)

sort-Permᴰ : {xs ys : List AdvertiserInfo} → Permᴰ xs ys → sort_slice xs ≡ sort_slice ys
unfolding sort_slice
sort-Permᴰ Permᴰ.nil = refl
sort-Permᴰ (Permᴰ.cons e p) = rw (e, sort-Permᴰ p)
sort-Permᴰ (Permᴰ.swap {a} {b} {l = l} e f) = rw (← e, ← f) (insert_comm a b (sort_slice l))
sort-Permᴰ (Permᴰ.trans p q) = sort-Permᴰ p ∙ sort-Permᴰ q

infos_set : IsSet (List AdvertiserInfo)
infos_set = hlevel

-- Rearranging a list changes nothing in its sorted form.
pub sort-Perm : (xs ys : List AdvertiserInfo) → Perm xs ys → sort_slice xs ≡ sort_slice ys
sort-Perm xs ys p = ∥∥₁_elim p (infos_set _ _) sort-Permᴰ

-- No element is less than the one before it.
abbrev pub IsSorted : List AdvertiserInfo → Type 0
IsSorted [] = Unit {0}
IsSorted (a ∷ []) = Unit {0}
IsSorted (a ∷ b ∷ l) = (less b a ≡ false) × IsSorted (b ∷ l)

insert-IsSorted_under :
    (a b : AdvertiserInfo) (l : List AdvertiserInfo)
    → less b a ≡ true
    → IsSorted (b ∷ l)
    → IsSorted (insert_sorted a l)
    → IsSorted (b ∷ insert_sorted a l)
unfolding insert_sorted
insert-IsSorted_under a b [] h s k = (ground (arith, less_trans a b a, less_irrefl a), tt)
insert-IsSorted_under a b (c ∷ l) h s k = elim (Bool-cases (less c a)) [
  | inl under ↦ rw under (s.0, rw (under, insert_sorted) at k)
  | inr stop ↦
      rw stop (ground (arith, less_trans a b a, less_irrefl a), rw (stop, insert_sorted) at k)
]

IsSorted-tail : (a : AdvertiserInfo) (l : List AdvertiserInfo) → IsSorted (a ∷ l) → IsSorted l
IsSorted-tail a [] h = tt
IsSorted-tail a (b ∷ l) h = h.1

insert-IsSorted :
    (a : AdvertiserInfo) (l : List AdvertiserInfo) → IsSorted l → IsSorted (insert_sorted a l)
unfolding insert_sorted
insert-IsSorted a [] s = tt
insert-IsSorted a (b ∷ l) s = elim (Bool-cases (less b a)) [
  | inl under ↦
      rw under (insert-IsSorted_under a b l under s (insert-IsSorted a l (IsSorted-tail b l s)))
  | inr stop ↦ rw stop (stop, s)
]

insert-perm : (a : AdvertiserInfo) (l : List AdvertiserInfo) → Perm (insert_sorted a l) (a ∷ l)
unfolding insert_sorted
insert-perm a [] = Perm.refl (a ∷ [])
insert-perm a (b ∷ l) = elim (Bool-cases (less b a)) [
  | inl under ↦ rw under (Perm.trans (Perm.cons b (insert-perm a l)) (Perm.swap a b l))
  | inr stop ↦ rw stop (Perm.refl (a ∷ b ∷ l))
]

sort-IsSorted : (xs : List AdvertiserInfo) → IsSorted (sort_slice xs)
unfolding sort_slice
sort-IsSorted [] = tt
sort-IsSorted (a ∷ xs) = insert-IsSorted a (sort_slice xs) (sort-IsSorted xs)

sort-perm : (xs : List AdvertiserInfo) → Perm (sort_slice xs) xs
unfolding sort_slice
sort-perm [] = Perm.refl []
sort-perm (a ∷ xs) = Perm.trans (insert-perm a (sort_slice xs)) (Perm.cons a (sort-perm xs))

insert_least :
    (a : AdvertiserInfo) (l : List AdvertiserInfo) → IsSorted (a ∷ l) → insert_sorted a l ≡ a ∷ l
unfolding insert_sorted
insert_least a [] s = refl
insert_least a (b ∷ l) s = rw (s.0)

sort_of_IsSorted : (l : List AdvertiserInfo) → IsSorted l → sort_slice l ≡ l
unfolding sort_slice
sort_of_IsSorted [] s = refl
sort_of_IsSorted (a ∷ l) s = rw (sort_of_IsSorted l (IsSorted-tail a l s)) (insert_least a l s)

pub sort_slice_lem : (xs : List AdvertiserInfo) → Perm (sort_slice xs) xs × IsSorted (sort_slice xs)
sort_slice_lem xs = (sort-perm xs, sort-IsSorted xs)

-- Every ordered rearrangement of a list is its sorted form: what an unstable sort leaves is
-- determined.
pub sort_slice_unique :
    (xs ys : List AdvertiserInfo) → Perm ys xs → IsSorted ys → ys ≡ sort_slice xs
sort_slice_unique xs ys p s = sym (sort_of_IsSorted ys s) ∙ sort-Perm ys xs p
