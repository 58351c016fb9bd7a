-- ===== src/Analysis/Batch/Examples.antt =====
-- A batch of two domains with one worker at a time, and the theorems on the workers at it.
use mathlib.Core.List.Perm
use perion_assignment.Common.{
  true, ℕ, suc, ◌+◌, ◌*◌, ◌≤◌, ◌≡◌, refl, ◌↔◌, List, [], ◌∷◌, arith, sum_of, length,
}
use perion_assignment.Text.{Text, codes}
use perion_assignment.Dict.{Dict}
use perion_assignment.Models.{DomainAnalysis, DomainResult}
use perion_assignment.Models.Errors.{domain_not_found, Result, err}
use perion_assignment.Models.Log.{LogCall, medium, log_error}
use perion_assignment.Analysis.Batch.{
  worker_log, own_calls, domain_result, Batch, started, IsComplete, acquire, finish, release,
  is_done, closes, receives, answers, Run, rests, steps, batch_answer,
}
use perion_assignment.Analysis.Batch.Log.{at_error, at_failure, own_calls_lem}
use perion_assignment.Analysis.Batch.Progress.{always_answers, complete_answer}

-- An analysis that counts its calls and finds nothing.
abbrev lost : Text → ℕ → ℕ × Result DomainAnalysis
lost domain n = (suc n, err domain_not_found)

abbrev in_order : Dict ℕ → List (Text × ℕ)
in_order m = m

abbrev two_domains : List Text
two_domains = codes "x.org" ∷ codes "y.org" ∷ []

abbrev result : ℕ → Text → DomainResult
result now domain = domain_result now domain (err domain_not_found)

abbrev failure : Text → LogCall
failure domain =
    log_error (codes "batch_analysis") domain (codes "Failed to analyze domain in batch")
      domain_not_found medium

-- The second domain is answered before the first.
abbrev finished : Batch ℕ
finished = record {
  waiting = [];
  running = [];
  releasing = 0;
  ending = 0;
  taken = 0;
  counter = 0;
  capacity = 2;
  sent = result 7 (codes "y.org") ∷ result 9 (codes "x.org") ∷ [];
  received = 2;
  is_closed = true;
  answered = true;
  log = failure (codes "y.org") ∷ failure (codes "x.org") ∷ [];
  world = 2;
}

one_at_a_time : Run lost 1 12 (started two_domains 0) finished
unfolding worker_log
one_at_a_time = steps (acquire (codes "x.org" ∷ []) [] (codes "y.org") refl (omega arith)) (
    steps (finish 7 [] [] (codes "y.org") refl refl (omega arith)) (
      steps (release 0 0 refl refl) (
        steps (is_done 0 1 refl refl) (
          steps (receives (omega arith)) (
            steps (acquire [] [] (codes "x.org") refl (omega arith)) (
              steps (finish 9 [] [] (codes "x.org") refl refl (omega arith)) (
                steps (release 0 0 refl refl) (
                  steps (is_done 0 0 refl refl) (
                    steps (closes refl refl) (
                      steps (receives (omega arith))
                        (steps (answers refl refl refl) rests)))))))))))

-- One worker runs, and the other waits.
abbrev one_running : Batch ℕ
one_running = record (started two_domains 0) {
  waiting = codes "x.org" ∷ [];
  running = codes "y.org" ∷ [];
  taken = 1;
}

first_step : Run lost 1 1 (started two_domains 0) one_running
first_step = steps (acquire (codes "x.org" ∷ []) [] (codes "y.org") refl (omega arith)) rests

always_answers_example :
    (length one_running.running ≤ 1)
    × ((k : ℕ) × (u : Batch ℕ) × Run lost 1 k one_running u × IsComplete u × (1 + k ≡ 5 * 2 + 2))
    × (IsComplete one_running ↔ (1 ≡ 5 * 2 + 2))
always_answers_example = always_answers lost 1 two_domains 0 1 one_running first_step (omega arith)

complete_answer_example :
    (let r = batch_answer in_order 5 two_domains finished.sent in
      ((f : Text → ℕ) → sum_of (λ result. f result.domain) r.results ≡ sum_of f two_domains)
      × (r.summary.total ≡ 2)
      × (r.summary.succeeded + r.summary.failed ≡ 2))
complete_answer_example =
    complete_answer lost 1 in_order 5 two_domains 0 12 finished (λ m. Perm.refl m) one_at_a_time
      refl

own_calls_lem_example :
    ((f : Text → ℕ)
      → sum_of (at_error f) (own_calls two_domains finished.log)
        ≡ sum_of (at_failure f) finished.sent)
    × (length (own_calls two_domains finished.log)
        ≡ 2 + (batch_answer in_order 5 two_domains finished.sent).summary.failed)
own_calls_lem_example =
    own_calls_lem lost 1 in_order 5 (codes "x.org") (codes "y.org" ∷ []) 0 12 finished
      (λ m. Perm.refl m) one_at_a_time
