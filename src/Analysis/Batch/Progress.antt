-- ===== src/Analysis/Batch/Progress.antt =====
-- The progress of a batch of internal/domainAnalysis/analysis.go, and the answer that it comes to.
use native.Mathlib.Nat.{eq-or-lt_of_le}
use perion_assignment.Common.{
  Bool-cases, false, zero, ℕ, suc, ◌+◌, ◌*◌, ◌≤◌, ◌≡◌, refl, ap, ◌⊎◌, ◌↔◌, inl, inr, List, [], ◌∷◌,
  length, arith, sum_of, length-append,
}
use perion_assignment.Text.{Text}
use perion_assignment.Dict.{Dict}
use perion_assignment.Models.{DomainAnalysis}
use perion_assignment.Models.Errors.{Result}
use perion_assignment.Analysis.{aggregate_results}
use perion_assignment.Analysis.Build.{IsOrder}
use perion_assignment.Analysis.Aggregate.{aggregate_results_lem}
use perion_assignment.Analysis.Batch.{
  domain_result, Batch, started, IsComplete, Step, acquire, finish, release, is_done, closes,
  receives, answers, Run, rests, steps, batch_answer,
}
use perion_assignment.Analysis.Batch.Sound.{
  IsSound, work, length-middle, Run-over_all, step-IsSound, Run-IsSound,
}

empty : {A : Type 0} {l : List A} → length l ≡ 0 → l ≡ []
empty {l = []} h = refl
empty {l = x ∷ l} h = absurd (omega arith)

pub sum_of-ones : {A : Type 0} (l : List A) → sum_of (λ _. 1) l ≡ length l
sum_of-ones [] = refl
sum_of-ones (x ∷ l) = omega (arith, sum_of-ones l)

List-cases : {A : Type 0} (l : List A) → (l ≡ []) ⊎ ((x : A) × (xs : List A) × (l ≡ x ∷ xs))
List-cases [] = inl refl
List-cases (x ∷ xs) = inr (x, xs, refl)

ℕ-cases : (n : ℕ) → (n ≡ 0) ⊎ ((k : ℕ) × (n ≡ suc k))
ℕ-cases zero = inl refl
ℕ-cases (suc k) = inr (k, refl)

module _ {W : Type 0} (analyze : Text → W → W × Result DomainAnalysis) (max_concurrent : ℕ) where
  step-work :
      (m : ℕ) {s t : Batch W}
      → Step analyze max_concurrent s t
      → IsSound analyze max_concurrent m s
      → suc (work analyze max_concurrent t) ≡ work analyze max_concurrent s
  step-work m (acquire before after dom e free) h =
      omega (arith, ap length e, length-middle analyze max_concurrent before after dom)
  step-work m (finish {s} now before after dom e still room) h = omega (
    arith,
    ap length e,
    length-middle analyze max_concurrent before after dom,
    h.in_order,
    length-append s.sent (domain_result now dom (analyze dom s.world).1 ∷ []),
  )
  step-work m (release rest left e k) h = omega (arith, e)
  step-work m (is_done rest left e k) h = omega (arith, e)
  step-work m (closes e k) h = rw k (omega arith)
  step-work m (receives l) h = omega arith
  step-work m (answers e k l) h = rw l (omega arith)

  still_open :
      (m : ℕ) (s : Batch W)
      → IsSound analyze max_concurrent m s
      → 1 ≤ s.counter
      → s.is_closed ≡ false
  still_open m s h some_left = elim (Bool-cases s.is_closed) [
    | inl closed ↦ absurd (omega (arith, some_left, h.all_done closed))
    | inr opened ↦ opened
  ]

  -- The channel, once all workers are done.
  drains :
      (m : ℕ) (s : Batch W)
      → IsSound analyze max_concurrent m s
      → s.counter ≡ 0
      → IsComplete s ⊎ ((t : Batch W) × Step analyze max_concurrent s t)
  drains m s h none_left = elim (Bool-cases s.is_closed) [
    | inr opened ↦ inr (_, closes none_left opened)
    | inl closed ↦ elim (eq-or-lt_of_le h.in_order) [
      | inr more ↦ inr (_, receives more)
      | inl all_in ↦ elim (Bool-cases s.answered) [
        | inl answered ↦ inl answered
        | inr silent ↦ inr (_, answers closed all_in silent)
      ]
    ]
  ]

  -- The workers that hold no place.
  without_places :
      (m : ℕ) (s : Batch W)
      → 1 ≤ max_concurrent
      → IsSound analyze max_concurrent m s
      → length s.running ≡ 0
      → s.releasing ≡ 0
      → IsComplete s ⊎ ((t : Batch W) × Step analyze max_concurrent s t)
  without_places m s places h idle free = elim (ℕ-cases s.ending) [
    | inr (rest, e) ↦
        inr (_, is_done rest (length s.waiting + rest) e (omega (arith, h.workers, idle, free, e)))
    | inl none_ends ↦ elim (List-cases s.waiting) [
      | inr (dom, rest, e) ↦
          inr (_, acquire [] rest dom e (omega (arith, h.places, idle, free, places)))
      | inl none_waits ↦
          drains m s h (omega (arith, h.workers, ap length none_waits, idle, free, none_ends))
    ]
  ]

  -- A batch that is sound and has not answered can go on.
  goes_on :
      (m : ℕ) (s : Batch W)
      → 1 ≤ max_concurrent
      → IsSound analyze max_concurrent m s
      → IsComplete s ⊎ ((t : Batch W) × Step analyze max_concurrent s t)
  goes_on m s places h = elim (List-cases s.running) [
    | inr (dom, rest, e) ↦
        let count = ap length e in
        inr (
          _,
          finish 0 [] rest dom e (still_open m s h (omega (arith, h.workers, count)))
              (omega (arith, h.results, h.room, count)),
        )
    | inl idle ↦ elim (ℕ-cases s.releasing) [
      | inr (rest, e) ↦ inr (_, release rest rest e (omega (arith, h.places, ap length idle, e)))
      | inl free ↦ without_places m s places h (ap length idle) free
    ]
  ]

  -- Where the workers are when the answer is there.
  complete_lem :
      (m : ℕ) (s : Batch W)
      → IsSound analyze max_concurrent m s
      → IsComplete s
      → (s.waiting ≡ []) × (s.running ≡ []) × (work analyze max_concurrent s ≡ 0)
  complete_lem m s h done =
      let (closed, all_in) = h.closed_first done in
      let none_left = h.all_done closed in
      (
        empty (omega (arith, h.workers, none_left)),
        empty (omega (arith, h.workers, none_left)),
        rw (closed, done) (omega (arith, h.workers, none_left, all_in)),
      )

  finishes :
      (m left : ℕ) (s : Batch W)
      → 1 ≤ max_concurrent
      → IsSound analyze max_concurrent m s
      → work analyze max_concurrent s ≡ left
      → (t : Batch W) × Run analyze max_concurrent left s t × IsComplete t
  finishes m zero s places h none_left = elim (goes_on m s places h) [
    | inl done ↦ (s, rests, done)
    | inr (t, step) ↦ absurd (omega (arith, step-work m step h, none_left))
  ]
  finishes m (suc left) s places h more = elim (goes_on m s places h) [
    | inl done ↦ absurd (omega (arith, more, (complete_lem m s h done).2))
    | inr (t, step) ↦
        let (u, run, done) =
          finishes m left t places (step-IsSound analyze max_concurrent m step h)
            (omega (arith, step-work m step h, more)) in
        (u, steps step run, done)
  ]

  Run-work :
      (m : ℕ) {n : ℕ} {s t : Batch W}
      → Run analyze max_concurrent n s t
      → IsSound analyze max_concurrent m s
      → n + work analyze max_concurrent t ≡ work analyze max_concurrent s
  Run-work m rests h = omega arith
  Run-work m (steps step run) h =
      omega
        (arith, step-work m step h, Run-work m run (step-IsSound analyze max_concurrent m step h))

  -- With a place in the semaphore, wherever a schedule has brought the goroutines: no more calls of
  -- `AnalyzeDomain` run than the semaphore has places; the aggregator comes to its answer, since every
  -- run can be continued to an answered one; and no run makes more than five steps for each domain and
  -- two more, the answered ones being those that make so many.
  pub always_answers :
      (domains : List Text) (w : W) (n : ℕ) (t : Batch W)
      → Run analyze max_concurrent n (started domains w) t
      → 1 ≤ max_concurrent
      → (length t.running ≤ max_concurrent)
        × ((k : ℕ) × (u : Batch W) × Run analyze max_concurrent k t u
            × IsComplete u
            × (n + k ≡ 5 * length domains + 2))
        × (IsComplete t ↔ (n ≡ 5 * length domains + 2))
  always_answers domains w n t run places =
      let h = Run-IsSound analyze max_concurrent domains w run in
      let start = Run-IsSound analyze max_concurrent domains w rests in
      let left = work analyze max_concurrent t in
      let all = Run-work (length domains) run start in
      let (u, later, done) = finishes (length domains) left t places h refl in
      (
        omega (arith, h.places, h.few),
        (left, u, later, done, omega (arith, all)),
        (
          (λ c. omega (arith, all, (complete_lem (length domains) t h c).2)),
          (λ c. at_end t u left (omega (arith, all, c)) later done),
        ),
      )
    where
      at_end :
          (t u : Batch W) (left : ℕ)
          → left ≡ 0
          → Run analyze max_concurrent left t u
          → IsComplete u
          → IsComplete t
      at_end t u left none_left rests done = done
      at_end t u left none_left (steps step run) done = absurd (omega arith)

  pub sent_all :
      (f : Text → ℕ) (domains : List Text) (w : W) (n : ℕ) (t : Batch W)
      → Run analyze max_concurrent n (started domains w) t
      → IsComplete t
      → sum_of (λ r. f r.domain) t.sent ≡ sum_of f domains
  sent_all f domains w n t run done =
      let h = Run-IsSound analyze max_concurrent domains w run in
      let (a, b, _) = complete_lem (length domains) t h done in
      omega (arith, Run-over_all analyze max_concurrent f run, ap (sum_of f) a, ap (sum_of f) b)

  -- The answer to a complete batch has each domain as often as the request, and each of its results
  -- is counted as a success or as a failure.
  pub complete_answer :
      (order : Dict ℕ → List (Text × ℕ)) (now : ℕ) (domains : List Text) (w : W) (n : ℕ)
      (t : Batch W)
      → IsOrder order
      → Run analyze max_concurrent n (started domains w) t
      → IsComplete t
      → (let r = batch_answer order now domains t.sent in
          ((f : Text → ℕ) → sum_of (λ result. f result.domain) r.results ≡ sum_of f domains)
          × (r.summary.total ≡ length domains)
          × (r.summary.succeeded + r.summary.failed ≡ length domains))
  unfolding batch_answer aggregate_results
  complete_answer order now [] w n t o run done = ((λ f. refl), refl, refl)
  complete_answer order now (dom ∷ domains) w n t o run done =
      let (all_counted, _, tallied, _, _, _) =
        aggregate_results_lem order o now (suc (length domains)) t.sent in
      let answered = sent_all (λ _. 1) (dom ∷ domains) w n t run done in
      (
        (λ f. sent_all f (dom ∷ domains) w n t run done),
        all_counted,
        unfold aggregate_results in
            omega (arith, tallied, answered, sum_of-ones t.sent, sum_of-ones domains),
      )
