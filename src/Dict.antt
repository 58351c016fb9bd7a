-- ===== src/Dict.antt =====
-- Go maps with string keys, as association lists; a well-formed one has each key once.
pub mod Laws
pub mod Counts
use perion_assignment.Common.{
  ℕ, zero, suc, ◌+◌, ◌≡◌, Bool, List, [], ◌∷◌, Option, none, some, if◌then◌else◌, map,
}
use perion_assignment.Text.{Text, text_eq}

abbrev pub Dict {ℓ} : Type ℓ → Type ℓ
Dict V = List (Text × V)

module _ {ℓ} {V : Type ℓ} where
  -- `v, ok := m[k]`.
  unfoldable pub get : Text → Dict V → Option V
  get k [] = none
  get k ((j, v) ∷ m) = if text_eq j k then some v else get k m

  -- `m[k] = v`.
  unfoldable pub put : Text → V → Dict V → Dict V
  put k v [] = (k, v) ∷ []
  put k v ((j, w) ∷ m) = let rest = put k v m in if text_eq j k then (j, v) ∷ m else (j, w) ∷ rest

  -- `delete(m, k)`.
  unfoldable pub remove : Text → Dict V → Dict V
  remove k [] = []
  remove k ((j, w) ∷ m) = let rest = remove k m in if text_eq j k then rest else (j, w) ∷ rest

  -- The entries whose value passes a test, for a loop that deletes the others.
  unfoldable pub keep_if : (V → Bool) → Dict V → Dict V
  keep_if p [] = []
  keep_if p ((j, w) ∷ m) = let rest = keep_if p m in if p w then (j, w) ∷ rest else rest

  -- Each key stands once.
  abbrev pub IsDict : Dict V → Type ℓ
  IsDict [] = Unit
  IsDict ((k, v) ∷ m) = (get k m ≡ none) × IsDict m

-- `m[k]` of a map of numbers: zero for a missing key.
abbrev pub or_zero : Option ℕ → ℕ
or_zero none = 0
or_zero (some n) = n

unfoldable pub at : Text → Dict ℕ → ℕ
at k m = or_zero (get k m)

-- `m[k] += n`.
unfoldable pub add_at : Text → ℕ → Dict ℕ → Dict ℕ
add_at k n m = put k (at k m + n) m
