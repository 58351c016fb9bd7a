-- ===== src/Analysis/Batch/Log.antt =====
-- The log calls that `AnalyzeDomains` of internal/domainAnalysis/analysis.go makes itself, against its
-- answer.
use perion_assignment.Common.{
  ℕ, suc, ◌+◌, ◌≡◌, refl, Option, none, some, List, [], ◌∷◌, length, arith, sum_of, sum_of-append,
  length-append, if◌then◌else◌,
}
use perion_assignment.Text.{Text}
use perion_assignment.Dict.{Dict}
use perion_assignment.Models.{DomainAnalysis, DomainResult}
use perion_assignment.Models.Errors.{Result, ok, err}
use perion_assignment.Models.Log.{LogCall, LogSeverity}
use perion_assignment.Analysis.Build.{IsOrder}
use perion_assignment.Analysis.Aggregate.{successes, aggregate_results_lem}
use perion_assignment.Analysis.Batch.{
  domain_result, worker_log, Batch, started, Step, acquire, finish, release, is_done, closes,
  receives, answers, Run, rests, steps, batch_answer, own_calls,
}

-- A number for each failed result, and for each log call with a severity.
abbrev pub at_failure : (Text → ℕ) → DomainResult → ℕ
at_failure f r = if r.success then 0 else f r.domain

abbrev pub with_severity : ℕ → Option LogSeverity → ℕ
with_severity n none = 0
with_severity n (some severity) = n

abbrev pub at_error : (Text → ℕ) → LogCall → ℕ
at_error f c = with_severity (f c.target_name) c.severity

module _ {W : Type 0} (analyze : Text → W → W × Result DomainAnalysis) (max_concurrent : ℕ) where
  abbrev IsLogged : (Text → ℕ) → Batch W → Type 0
  IsLogged f s =
      (sum_of (at_error f) s.log ≡ sum_of (at_failure f) s.sent)
      × (length s.log + successes s.sent ≡ length s.sent)

  worker_lem :
      (f : Text → ℕ) (now : ℕ) (dom : Text) (r : Result DomainAnalysis)
      → (sum_of (at_error f) (worker_log dom r) ≡ at_failure f (domain_result now dom r))
        × (length (worker_log dom r) + successes (domain_result now dom r ∷ []) ≡ 1)
  unfolding worker_log domain_result
  worker_lem f now dom (ok analysis) = (refl, refl)
  worker_lem f now dom (err e) = (omega arith, refl)

  step-IsLogged :
      (f : Text → ℕ) {s t : Batch W} → Step analyze max_concurrent s t → IsLogged f s → IsLogged f t
  step-IsLogged f (acquire before after dom e free) h = h
  step-IsLogged f (release rest left e k) h = h
  step-IsLogged f (is_done rest left e k) h = h
  step-IsLogged f (closes e k) h = h
  step-IsLogged f (receives l) h = h
  step-IsLogged f (answers e k l) h = h
  step-IsLogged f (finish {s} now before after dom e still room) (errors, count) =
      let sent = s.sent in
      let log = s.log in
      let r = (analyze dom s.world).1 in
      let (same, one) = worker_lem f now dom r in
      (
        omega (
          arith,
          errors,
          same,
          sum_of-append (at_error f) log (worker_log dom r),
          sum_of-append (at_failure f) sent (domain_result now dom r ∷ []),
        ),
        omega (
          arith,
          count,
          one,
          length-append log (worker_log dom r),
          length-append sent (domain_result now dom r ∷ []),
          sum_of-append (λ r. if r.success then 1 else 0) sent (domain_result now dom r ∷ []),
        ),
      )

  run-IsLogged :
      (f : Text → ℕ) {n : ℕ} {s t : Batch W}
      → Run analyze max_concurrent n s t
      → IsLogged f s
      → IsLogged f t
  run-IsLogged f rests h = h
  run-IsLogged f (steps step run) h = run-IsLogged f run (step-IsLogged f step h)

  -- Of the log calls that `AnalyzeDomains` makes itself for one domain or more, those of
  -- `AnalyzeDomain` not counted: they name each domain in as many errors as it has failed results, and
  -- are, beside the errors, which are as many as the answer counts, two.
  pub own_calls_lem :
      (order : Dict ℕ → List (Text × ℕ)) (now : ℕ) (dom : Text) (domains : List Text) (w : W)
      (n : ℕ) (t : Batch W)
      → IsOrder order
      → Run analyze max_concurrent n (started (dom ∷ domains) w) t
      → ((f : Text → ℕ)
          → sum_of (at_error f) (own_calls (dom ∷ domains) t.log) ≡ sum_of (at_failure f) t.sent)
        × (length (own_calls (dom ∷ domains) t.log)
            ≡ 2 + (batch_answer order now (dom ∷ domains) t.sent).summary.failed)
  unfolding own_calls batch_answer
  own_calls_lem order now dom domains w n t o run =
      let (_, good, all_counted, _, _, _) =
        aggregate_results_lem order o now (suc (length domains)) t.sent in
      let (_, count) = run-IsLogged (λ d. 0) run (refl, refl) in
      (
        (λ f. omega (
          arith,
          (run-IsLogged f run (refl, refl)).0,
          sum_of-append (at_error f) t.log (_ ∷ []),
        )),
        omega (arith, good, all_counted, count, length-append t.log (_ ∷ [])),
      )
