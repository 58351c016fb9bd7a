-- ===== src/Dict/Counts.antt =====
-- Maps of numbers, as counters.
use mathlib.Core.List.{Perm}
use mathlib.Core.List.Perm
use mathlib.Core.Option.{some-injective}
use perion_assignment.Common.{
  ℕ, ◌+◌, ◌<◌, ◌≡◌, refl, sym, ◌∙◌, [], ◌∷◌, none, some, if◌then◌else◌, arith, Bool-cases, inl, inr,
  sum_of,
}
use perion_assignment.Text.{Text, text_eq, text_eq_iff, text_eq_refl}
use perion_assignment.Dict.{Dict, get, put, remove, IsDict, at, or_zero, add_at}
use perion_assignment.Dict.Laws.{
  get-put, put-IsDict, get-remove, remove-IsDict, AllValues, AllValues-put,
}

-- The sum of the values.
abbrev pub total : Dict ℕ → ℕ
total m = sum_of (λ e. e.1) m

pub at-add_at :
    (j k : Text) (n : ℕ) (m : Dict ℕ)
    → at j (add_at k n m) ≡ at j m + (if text_eq k j then n else 0)
unfolding at add_at
at-add_at j k n m = elim (Bool-cases (text_eq k j)) [
  | inl same ↦ rw (get-put j k (or_zero (get k m) + n) m, same, (text_eq_iff k j).0 same)
  | inr other ↦ rw (get-put j k (or_zero (get k m) + n) m, other) (omega arith)
]

total-put : (k : Text) (n : ℕ) (m : Dict ℕ) → total (put k n m) + at k m ≡ total m + n
unfolding at put get
total-put k n [] = omega arith
total-put k n ((j, v) ∷ m) = ground (arith, total-put k n m)

pub total-add_at : (k : Text) (n : ℕ) (m : Dict ℕ) → total (add_at k n m) ≡ total m + n
unfolding add_at
total-add_at k n m = omega (arith, total-put k (at k m + n) m)

pub add_at-IsDict : (k : Text) (n : ℕ) (m : Dict ℕ) → IsDict m → IsDict (add_at k n m)
unfolding add_at
add_at-IsDict k n m h = put-IsDict k (at k m + n) m h

pub add_at-positive :
    (k : Text) (n : ℕ) (m : Dict ℕ)
    → 0 < n
    → AllValues (λ v. 0 < v) m
    → AllValues (λ v. 0 < v) (add_at k n m)
unfolding add_at
add_at-positive k n m h p = AllValues-put (λ v. 0 < v) k (at k m + n) m p (omega arith)

-- Two maps that answer alike.
abbrev pub SameMap : Dict ℕ → Dict ℕ → Type 0
SameMap m m' = (k : Text) → get k m ≡ get k m'

get-add_at :
    (j k : Text) (n : ℕ) (m : Dict ℕ)
    → get j (add_at k n m) ≡ (if text_eq k j then some (at k m + n) else get j m)
unfolding add_at
get-add_at j k n m = get-put j k (at k m + n) m

pub add_at-SameMap :
    (k : Text) (n : ℕ) (m m' : Dict ℕ) → SameMap m m' → SameMap (add_at k n m) (add_at k n m')
unfolding at
add_at-SameMap k n m m' h j = rw (get-add_at j k n m, get-add_at j k n m', h j, h k)

-- Additions commute.
pub add_at_comm :
    (j k : Text) (a b : ℕ) (m : Dict ℕ)
    → SameMap (add_at j a (add_at k b m)) (add_at k b (add_at j a m))
unfolding at
add_at_comm j k a b m i = ground (
  arith,
  get-add_at i j a (add_at k b m),
  get-add_at i k b (add_at j a m),
  get-add_at i k b m,
  get-add_at i j a m,
  get-add_at j k b m,
  get-add_at k j a m,
  text_eq_iff j i,
  text_eq_iff k i,
  text_eq_iff k j,
  text_eq_iff j k,
)

remove_absent : (k : Text) (m : Dict ℕ) → get k m ≡ none → remove k m ≡ m
unfolding get remove
remove_absent k [] h = refl
remove_absent k ((j, v) ∷ m) h = ground (arith, remove_absent k m)

-- A map holds a key's entry and the rest.
get-perm :
    (k : Text) (v : ℕ) (m : Dict ℕ) → IsDict m → get k m ≡ some v → Perm m ((k, v) ∷ remove k m)
unfolding get remove
get-perm k v [] h e = cc
get-perm k v ((j, w) ∷ m) h e = elim (Bool-cases (text_eq j k)) [
  | inl same ↦
      let names = (text_eq_iff j k).0 same in
      let values = some-injective w v (rw (same, get) at e) in
      let absent : get k m ≡ none = rw names at h.0 in
      rw (same, remove_absent k m absent, names, values) (Perm.refl ((k, v) ∷ m))
  | inr other ↦ rw other (
      Perm.trans (Perm.cons (j, w) (get-perm k v m h.1 (rw (other, get) at e)))
        (Perm.swap (k, v) (j, w) (remove k m)))
]

SameMap-remove :
    (k : Text) (v : ℕ) (m m' : Dict ℕ)
    → get k m ≡ none
    → SameMap ((k, v) ∷ m) m'
    → SameMap m (remove k m')
unfolding get
SameMap-remove k v m m' absent h j = ground (arith, h j, get-remove j k m', text_eq_iff k j)

empty_of_SameMap : (m : Dict ℕ) → SameMap [] m → m ≡ []
unfolding get
empty_of_SameMap [] h = refl
empty_of_SameMap ((k, v) ∷ m) h = cc (h k, text_eq_refl k)

-- Two maps that answer alike hold the same entries.
pub SameMap-perm : (m m' : Dict ℕ) → IsDict m → IsDict m' → SameMap m m' → Perm m m'
unfolding get
SameMap-perm [] m' h h' same = rw (empty_of_SameMap m' same) (Perm.refl [])
SameMap-perm ((k, v) ∷ m) m' h h' same =
    let found : get k m' ≡ some v = sym (same k) ∙ rw (text_eq_refl k) in
    Perm.trans
      (Perm.cons (k, v)
        (SameMap-perm m (remove k m') h.1 (remove-IsDict k m' h')
          (SameMap-remove k v m m' h.0 same)))
      (Perm.symm (get-perm k v m' h' found))
