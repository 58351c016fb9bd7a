-- ===== src/Dict/Laws.antt =====
-- The laws of maps: what a write, a deletion and a sweep leave at each key.
use perion_assignment.Common.{
  ◌≡◌, refl, ◌∙◌, Bool, [], ◌∷◌, Option, none, some, if◌then◌else◌, arith, Bool-cases, inl, inr,
}
use mathlib.Core.Option.{some-injective}
use perion_assignment.Text.{Text, text_eq, text_eq_iff, text_eq_refl}
use perion_assignment.Dict.{Dict, get, put, remove, keep_if, IsDict}

-- The value that a test passes.
abbrev pub kept {ℓ} : {V : Type ℓ} → (V → Bool) → Option V → Option V
kept p none = none
kept p (some v) = if p v then some v else none

module _ {ℓ} {V : Type ℓ} where
  pub get-put :
      (j k : Text) (v : V) (m : Dict V)
      → get j (put k v m) ≡ (if text_eq k j then some v else get j m)
  unfolding get put
  get-put j k v [] = refl
  get-put j k v ((i, w) ∷ m) =
      ground (arith, text_eq_iff k j, text_eq_iff i k, text_eq_iff i j, get-put j k v m)

  pub get-put_self : (k : Text) (v : V) (m : Dict V) → get k (put k v m) ≡ some v
  get-put_self k v m = get-put k k v m ∙ rw (text_eq_refl k)

  pub get-remove :
      (j k : Text) (m : Dict V) → get j (remove k m) ≡ (if text_eq k j then none else get j m)
  unfolding get remove
  get-remove j k [] = ground arith
  get-remove j k ((i, w) ∷ m) =
      ground (arith, text_eq_iff k j, text_eq_iff i k, text_eq_iff i j, get-remove j k m)

  pub put-IsDict : (k : Text) (v : V) (m : Dict V) → IsDict m → IsDict (put k v m)
  unfolding get put
  put-IsDict k v [] h = (refl, tt)
  put-IsDict k v ((i, w) ∷ m) h =
      ground (arith, text_eq_iff i k, text_eq_iff k i, get-put i k v m, put-IsDict k v m h.1)

  pub remove-IsDict : (k : Text) (m : Dict V) → IsDict m → IsDict (remove k m)
  unfolding get remove
  remove-IsDict k [] h = tt
  remove-IsDict k ((i, w) ∷ m) h = ground (arith, get-remove i k m, remove-IsDict k m h.1)

  pub get-keep_if :
      (p : V → Bool) (k : Text) (m : Dict V) → IsDict m → get k (keep_if p m) ≡ kept p (get k m)
  unfolding get keep_if
  get-keep_if p k [] h = refl
  get-keep_if p k ((i, w) ∷ m) h = ground (arith, text_eq_iff i k, get-keep_if p k m h.1)

  pub keep_if-IsDict : (p : V → Bool) (m : Dict V) → IsDict m → IsDict (keep_if p m)
  unfolding get keep_if
  keep_if-IsDict p [] h = tt
  keep_if-IsDict p ((i, w) ∷ m) h = ground (arith, get-keep_if p i m h.1, keep_if-IsDict p m h.1)

  pub put-put : (k : Text) (v w : V) (m : Dict V) → put k v (put k w m) ≡ put k v m
  unfolding put
  put-put k v w [] = rw (text_eq_refl k)
  put-put k v w ((i, u) ∷ m) = ground (arith, put-put k v w m)

-- What holds of every value.
abbrev pub AllValues {ℓ κ} : {V : Type ℓ} → (V → Type κ) → Dict V → Type κ
AllValues P [] = Unit
AllValues P ((k, v) ∷ m) = P v × AllValues P m

module _ {ℓ κ} {V : Type ℓ} (P : V → Type κ) where
  pub AllValues-get : (k : Text) (m : Dict V) {v : V} → AllValues P m → get k m ≡ some v → P v
  unfolding get
  AllValues-get k [] h e = cc
  AllValues-get k ((i, w) ∷ m) h e = elim (Bool-cases (text_eq i k)) [
    | inl same ↦ rw (← some-injective _ _ (rw (same, get) at e)) h.0
    | inr other ↦ AllValues-get k m h.1 (rw (other, get) at e)
  ]

  pub AllValues-put :
      (k : Text) (v : V) (m : Dict V) → AllValues P m → P v → AllValues P (put k v m)
  unfolding put
  AllValues-put k v [] h p = (p, tt)
  AllValues-put k v ((i, w) ∷ m) h p = elim (Bool-cases (text_eq i k)) [
    | inl same ↦ rw same (p, h.1)
    | inr other ↦ rw other (h.0, AllValues-put k v m h.1 p)
  ]

  pub AllValues-keep_if : (p : V → Bool) (m : Dict V) → AllValues P m → AllValues P (keep_if p m)
  unfolding keep_if
  AllValues-keep_if p [] h = tt
  AllValues-keep_if p ((i, w) ∷ m) h = elim (Bool-cases (p w)) [
    | inl kept ↦ rw kept (h.0, AllValues-keep_if p m h.1)
    | inr swept ↦ rw swept (AllValues-keep_if p m h.1)
  ]

pub AllValues-imp {ℓ κ μ} :
    {V : Type ℓ} (P : V → Type κ) (Q : V → Type μ) (m : Dict V)
    → ((v : V) → P v → Q v)
    → AllValues P m
    → AllValues Q m
AllValues-imp P Q [] f h = tt
AllValues-imp P Q ((k, v) ∷ m) f h = (f v h.0, AllValues-imp P Q m f h.1)
