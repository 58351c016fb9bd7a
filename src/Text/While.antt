-- ===== src/Text/While.antt =====
-- The longest prefix whose code points pass a test: its laws, and that it is the only one.
use perion_assignment.Common.{
  ℕ, ◌≡◌, refl, Bool, true, false, [], ◌∷◌, ◌++◌, arith, all, Bool-cases, inl, inr, ◌≢◌,
}
use perion_assignment.Text.{Text, take_while, drop_while}

-- The text is empty or begins with a code point that fails the test.
abbrev pub Stops : (ℕ → Bool) → Text → Type 0
Stops p [] = Unit {0}
Stops p (c ∷ s) = p c ≡ false

pub take_while-append-drop_while : (p : ℕ → Bool) (s : Text) → take_while p s ++ drop_while p s ≡ s
unfolding take_while drop_while
take_while-append-drop_while p [] = refl
take_while-append-drop_while p (c ∷ s) = ground (arith, take_while-append-drop_while p s)

pub all-take_while : (p : ℕ → Bool) (s : Text) → all p (take_while p s) ≡ true
unfolding take_while
all-take_while p [] = refl
all-take_while p (c ∷ s) = ground (arith, all-take_while p s)

pub drop_while-Stops : (p : ℕ → Bool) (s : Text) → Stops p (drop_while p s)
unfolding drop_while
drop_while-Stops p [] = tt
drop_while-Stops p (c ∷ s) = elim (Bool-cases (p c)) [
  | inl e ↦ rw e (drop_while-Stops p s)
  | inr e ↦ rw e e
]

pub drop_while_of_Stops : (p : ℕ → Bool) (s : Text) → Stops p s → drop_while p s ≡ s
unfolding drop_while
drop_while_of_Stops p [] h = refl
drop_while_of_Stops p (c ∷ s) h = rw h

pub take_while_of_Stops : (p : ℕ → Bool) (s : Text) → Stops p s → take_while p s ≡ []
unfolding take_while
take_while_of_Stops p [] h = refl
take_while_of_Stops p (c ∷ s) h = rw h

pub drop_while-append :
    (p : ℕ → Bool) (a b : Text) → all p a ≡ true → Stops p b → drop_while p (a ++ b) ≡ b
unfolding drop_while
drop_while-append p [] b h k = drop_while_of_Stops p b k
drop_while-append p (c ∷ a) b h k = ground (arith, drop_while-append p a b)

pub take_while-append :
    (p : ℕ → Bool) (a b : Text) → all p a ≡ true → Stops p b → take_while p (a ++ b) ≡ a
unfolding take_while
take_while-append p [] b h k = take_while_of_Stops p b k
take_while-append p (c ∷ a) b h k = ground (arith, take_while-append p a b)

pub drop_while-all : (p : ℕ → Bool) (s : Text) → all p s ≡ true → drop_while p s ≡ []
unfolding drop_while
drop_while-all p [] h = refl
drop_while-all p (c ∷ s) h = ground (arith, drop_while-all p s)

-- A text that begins with a code point that fails the test does so whatever follows.
pub Stops-append : (p : ℕ → Bool) (a b : Text) → a ≢ [] → Stops p a → Stops p (a ++ b)
Stops-append p [] b h k = absurd (h refl)
Stops-append p (c ∷ a) b h k = k
