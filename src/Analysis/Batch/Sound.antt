-- ===== src/Analysis/Batch/Sound.antt =====
-- What the counts of a running batch of internal/domainAnalysis/analysis.go have to do with each other.
use mathlib.Core.Bool.{false≢true}
use perion_assignment.Common.{
  Bool, true, false, ◌-◌, sym, ℕ, suc, ◌+◌, ◌*◌, ◌≤◌, ◌≡◌, refl, ◌∙◌, ap, List, [], ◌∷◌, ◌++◌,
  length, arith, sum_of, sum_of-append, length-append,
}
use perion_assignment.Text.{Text}
use perion_assignment.Models.{DomainAnalysis}
use perion_assignment.Models.Errors.{Result, ok, err}
use perion_assignment.Analysis.Batch.{
  domain_result, Batch, started, Step, acquire, finish, release, is_done, closes, receives, answers,
  Run, rests, steps,
}

domain_result-domain :
    (now : ℕ) (dom : Text) (r : Result DomainAnalysis) → (domain_result now dom r).domain ≡ dom
unfolding domain_result
domain_result-domain now dom (ok a) = refl
domain_result-domain now dom (err e) = refl

module _ {W : Type 0} (analyze : Text → W → W × Result DomainAnalysis) (max_concurrent : ℕ) where
  -- A number for each domain, summed over the workers and the results.
  abbrev pub over_all : (Text → ℕ) → Batch W → ℕ
  over_all f s = sum_of f s.waiting + sum_of f s.running + sum_of (λ r. f r.domain) s.sent

  -- What the counts of a running batch have to do with each other.
  pub record IsSound (n : ℕ) (s : Batch W) : Type 0 where
    pub places : s.taken ≡ length s.running + s.releasing
    pub few : s.taken ≤ max_concurrent
    pub workers : s.counter ≡ length s.waiting + length s.running + s.releasing + s.ending
    pub room : s.capacity ≡ n
    pub results : length s.sent + length s.waiting + length s.running ≡ n
    pub in_order : s.received ≤ length s.sent
    pub all_done : s.is_closed ≡ true → s.counter ≡ 0
    pub closed_first : s.answered ≡ true → (s.is_closed ≡ true) × (s.received ≡ length s.sent)

  -- What is left to do.
  abbrev pub to_go : Bool → ℕ
  to_go true = 0
  to_go false = 1

  abbrev pub work : Batch W → ℕ
  work s =
      5 * length s.waiting
      + 4 * length s.running
      + 2 * s.releasing
      + s.ending
      + (length s.sent - s.received)
      + to_go s.is_closed
      + to_go s.answered

  sum_of-middle :
      (f : Text → ℕ) (before after : List Text) (dom : Text)
      → sum_of f (before ++ dom ∷ after) ≡ f dom + sum_of f (before ++ after)
  sum_of-middle f before after dom =
      omega (arith, sum_of-append f before (dom ∷ after), sum_of-append f before after)

  pub length-middle :
      (before after : List Text) (dom : Text)
      → length (before ++ dom ∷ after) ≡ suc (length (before ++ after))
  length-middle before after dom =
      omega (arith, length-append before (dom ∷ after), length-append before after)

  step-over_all :
      (f : Text → ℕ) {s t : Batch W} → Step analyze max_concurrent s t → over_all f t ≡ over_all f s
  step-over_all f (acquire before after dom e free) =
      omega (arith, ap (sum_of f) e, sum_of-middle f before after dom)
  step-over_all f (finish {s} now before after dom e still room) =
      let r = domain_result now dom (analyze dom s.world).1 in
      omega (
        arith,
        ap (sum_of f) e,
        sum_of-middle f before after dom,
        sum_of-append (λ r. f r.domain) s.sent (r ∷ []),
        ap f (domain_result-domain now dom (analyze dom s.world).1),
      )
  step-over_all f (release rest left e k) = refl
  step-over_all f (is_done rest left e k) = refl
  step-over_all f (closes e k) = refl
  step-over_all f (receives h) = refl
  step-over_all f (answers e k l) = refl

  pub Run-over_all :
      (f : Text → ℕ) {n : ℕ} {s t : Batch W}
      → Run analyze max_concurrent n s t
      → over_all f t ≡ over_all f s
  Run-over_all f rests = refl
  Run-over_all f (steps step run) = Run-over_all f run ∙ step-over_all f step

  pub step-IsSound :
      (n : ℕ) {s t : Batch W} → Step analyze max_concurrent s t → IsSound n s → IsSound n t
  step-IsSound n (acquire {s} before after dom e free) h =
      let count = ap length e ∙ length-middle before after dom in
      record {
        places = omega (arith, h.places);
        few = omega (arith, free);
        workers = omega (arith, h.workers, count);
        room = h.room;
        results = omega (arith, h.results, count);
        in_order = h.in_order;
        all_done = h.all_done;
        closed_first = h.closed_first;
      }
  step-IsSound n (finish {s} now before after dom e still room) h =
      let count = ap length e ∙ length-middle before after dom in
      let more = length-append s.sent (domain_result now dom (analyze dom s.world).1 ∷ []) in
      record {
        places = omega (arith, h.places, count);
        few = h.few;
        workers = omega (arith, h.workers, count);
        room = h.room;
        results = omega (arith, h.results, count, more);
        in_order = omega (arith, h.in_order, more);
        all_done = h.all_done;
        closed_first = λ k. absurd (false≢true (sym still ∙ (h.closed_first k).0));
      }
  step-IsSound n (release {s} rest left e k) h = record {
    places = omega (arith, h.places, e, k);
    few = omega (arith, h.few, k);
    workers = omega (arith, h.workers, e);
    room = h.room;
    results = h.results;
    in_order = h.in_order;
    all_done = h.all_done;
    closed_first = h.closed_first;
  }
  step-IsSound n (is_done {s} rest left e k) h = record {
    places = h.places;
    few = h.few;
    workers = omega (arith, h.workers, e, k);
    room = h.room;
    results = h.results;
    in_order = h.in_order;
    all_done = λ c. omega (arith, h.all_done c, k);
    closed_first = h.closed_first;
  }
  step-IsSound n (closes {s} e k) h = record {
    places = h.places;
    few = h.few;
    workers = h.workers;
    room = h.room;
    results = h.results;
    in_order = h.in_order;
    all_done = λ c. e;
    closed_first = λ c. (refl, (h.closed_first c).1);
  }
  step-IsSound n (receives {s} l) h = record {
    places = h.places;
    few = h.few;
    workers = h.workers;
    room = h.room;
    results = h.results;
    in_order = omega arith;
    all_done = h.all_done;
    closed_first = λ c. absurd (omega (arith, l, (h.closed_first c).1));
  }
  step-IsSound n (answers {s} c l o) h = record {
    places = h.places;
    few = h.few;
    workers = h.workers;
    room = h.room;
    results = h.results;
    in_order = h.in_order;
    all_done = h.all_done;
    closed_first = λ k. (c, l);
  }

  Run-IsSound_of :
      (m : ℕ) {n : ℕ} {s t : Batch W} → Run analyze max_concurrent n s t → IsSound m s → IsSound m t
  Run-IsSound_of m rests h = h
  Run-IsSound_of m (steps step run) h = Run-IsSound_of m run (step-IsSound m step h)

  pub Run-IsSound :
      (domains : List Text) (w : W) {n : ℕ} {t : Batch W}
      → Run analyze max_concurrent n (started domains w) t
      → IsSound (length domains) t
  Run-IsSound domains w run = Run-IsSound_of (length domains) run (record {
    places = refl;
    few = omega arith;
    workers = omega arith;
    room = refl;
    results = omega arith;
    in_order = omega arith;
    all_done = λ c. absurd (false≢true c);
    closed_first = λ c. absurd (false≢true c);
  })
