-- ===== src/Text/Split.antt =====
-- Splitting a text, against joining its parts.
use perion_assignment.Common.{
  ℕ, ◌≡◌, refl, ap, ◌∙◌, true, false, not, List, [], ◌∷◌, ◌++◌, arith, ◌==◌, all, All, ◌≢◌,
  Bool-cases, inl, inr,
}
use perion_assignment.Text.{Text, split, onto_head}

-- The parts with the separator between them.
unfoldable pub join : ℕ → List Text → Text
join sep [] = []
join sep (part ∷ []) = part
join sep (part ∷ next ∷ parts) = part ++ sep ∷ join sep (next ∷ parts)

abbrev pub Lacks : ℕ → Text → Type 0
Lacks sep s = all (λ c. not (c == sep)) s ≡ true

join-onto_head : (sep c : ℕ) (parts : List Text) → join sep (onto_head c parts) ≡ c ∷ join sep parts
unfolding join
join-onto_head sep c [] = refl
join-onto_head sep c (part ∷ []) = refl
join-onto_head sep c (part ∷ next ∷ parts) = refl

pub split-ne-nil : (sep : ℕ) (s : Text) → split sep s ≢ []
unfolding split
split-ne-nil sep [] = cc
split-ne-nil sep (c ∷ s) = grind (arith, split-ne-nil sep s)

join-cons_nil :
    (sep : ℕ) (parts : List Text) → parts ≢ [] → join sep ([] ∷ parts) ≡ sep ∷ join sep parts
unfolding join
join-cons_nil sep [] h = absurd (h refl)
join-cons_nil sep (part ∷ parts) h = refl

join_single : (sep : ℕ) → join sep ([] ∷ []) ≡ []
unfolding join
join_single sep = refl

pub join-split : (sep : ℕ) (s : Text) → join sep (split sep s) ≡ s
unfolding split
join-split sep [] = join_single sep
join-split sep (c ∷ s) = elim (Bool-cases (c == sep)) [
  | inl here ↦
      rw here
        (join-cons_nil sep (split sep s) (split-ne-nil sep s) ∙ ground (arith, join-split sep s))
  | inr other ↦ rw other (join-onto_head sep c (split sep s) ∙ ap (◌∷◌ c) (join-split sep s))
]

split-append_of_Lacks :
    (sep : ℕ) (part s : Text) → Lacks sep part → split sep (part ++ sep ∷ s) ≡ part ∷ split sep s
unfolding split
split-append_of_Lacks sep [] s h = ground arith
split-append_of_Lacks sep (c ∷ part) s h = ground (arith, split-append_of_Lacks sep part s)

split_of_Lacks : (sep : ℕ) (part : Text) → Lacks sep part → split sep part ≡ part ∷ []
unfolding split
split_of_Lacks sep [] h = refl
split_of_Lacks sep (c ∷ part) h = ground (arith, split_of_Lacks sep part)

-- Parts without the separator come back.
pub split-join :
    (sep : ℕ) (parts : List Text)
    → parts ≢ []
    → All (Lacks sep) parts
    → split sep (join sep parts) ≡ parts
unfolding join
split-join sep [] h k = absurd (h refl)
split-join sep (part ∷ []) h k = split_of_Lacks sep part k.0
split-join sep (part ∷ next ∷ parts) h k =
    split-append_of_Lacks sep part (join sep (next ∷ parts)) k.0
    ∙ ap (◌∷◌ part) (split-join sep (next ∷ parts) (cc) k.1)

onto_head-Lacks :
    (sep c : ℕ) (parts : List Text)
    → (c == sep) ≡ false
    → All (Lacks sep) parts
    → All (Lacks sep) (onto_head c parts)
onto_head-Lacks sep c [] h k = ground arith
onto_head-Lacks sep c (part ∷ parts) h k = (ground arith, k.1)

pub split-Lacks : (sep : ℕ) (s : Text) → All (Lacks sep) (split sep s)
unfolding split
split-Lacks sep [] = (refl, tt)
split-Lacks sep (c ∷ s) = ground (arith, split-Lacks sep s, onto_head-Lacks sep c (split sep s))
