-- ===== src/Http/Composed/Batch.antt =====
-- A batch from the request to the answer: the handler of internal/http/handlers.go over the workers of
-- internal/domainAnalysis/analysis.go.
mod Examples
use perion_assignment.Common.{
  ℕ, zero, suc, ◌+◌, ◌*◌, ◌≤◌, ◌<◌, ◌≡◌, refl, sym, ◌∙◌, ap, ◌↔◌, List, [], ◌∷◌, length, arith,
  sum_of,
}
use perion_assignment.Text.{Text}
use perion_assignment.Dict.{Dict}
use perion_assignment.Models.{DomainAnalysis, BatchAnalysisRequest}
use perion_assignment.Models.Errors.{Result, ok}
use perion_assignment.Analysis.{aggregate_results}
use perion_assignment.Analysis.Build.{IsOrder}
use perion_assignment.Analysis.Aggregate.{successes}
use perion_assignment.Analysis.Batch.{Batch, started, IsComplete, Run, batch_answer}
use perion_assignment.Analysis.Batch.Progress.{sent_all, sum_of-ones}
use perion_assignment.Http.{Request, AnalysisService, analyze_batch_domains, get_batch_status_code}
use perion_assignment.Http.Status.{get_batch_status_code_lem}
use perion_assignment.Http.Handlers.{IsAccepted, analyze_batch_domains-accepted}

module _ {W : Type 0} (analyze : Text → W → W × Result DomainAnalysis) (max_concurrent : ℕ)
    (order : Dict ℕ → List (Text × ℕ)) (now : ℕ) where
  all_sent :
      (domains : List Text) (w : W) (n : ℕ) (t : Batch W)
      → Run analyze max_concurrent n (started domains w) t
      → IsComplete t
      → length t.sent ≡ length domains
  all_sent domains w n t run done =
      sym (sum_of-ones t.sent)
      ∙ sent_all analyze max_concurrent (λ _. 1) domains w n t run done
      ∙ sum_of-ones domains

  -- The code of a complete batch.
  abbrev HasCode : ℕ → (good all : ℕ) → Type 0
  HasCode code good all =
      ((code ≡ 200) ↔ (good ≡ all))
      × ((code ≡ 207) ↔ ((0 < good) × (good < all)))
      × ((code ≡ 400) ↔ (good ≡ 0))

  -- The code over the results, over the domains.
  code_over :
      (code good sent all : ℕ)
      → ((code ≡ 200) ↔ (good ≡ sent))
        × ((code ≡ 207) ↔ ((0 < good) × (good < sent)))
        × ((code ≡ 400) ↔ ((0 < sent) × (good ≡ 0)))
      → sent ≡ all
      → 1 ≤ all
      → HasCode code good all
  code_over code good sent all (all_good, mixed, none_good) count some_given =
      rw (sym count)
        (all_good, mixed, ((λ h. (none_good.0 h).1), (λ h. none_good.1 (omega arith, h))))

  code_of_batch :
      (domains : List Text) (w : W) (n : ℕ) (t : Batch W)
      → IsOrder order
      → 1 ≤ length domains
      → Run analyze max_concurrent n (started domains w) t
      → IsComplete t
      → HasCode
          (get_batch_status_code (batch_answer order now domains t.sent))
          (successes t.sent)
          (length domains)
  unfolding batch_answer
  code_of_batch [] w n t o some_given run done = absurd (omega arith)
  code_of_batch (dom ∷ domains) w n t o some_given run done =
      code_over _ _ _ _ (get_batch_status_code_lem order now (suc (length domains)) t.sent o)
        (all_sent (dom ∷ domains) w n t run done) some_given

  -- A request for 1 to 100 domains, over a service that answers with what its workers have sent in
  -- some order of their steps: the client reads 200 exactly when the analysis of each domain has
  -- succeeded, 207 exactly when some have and some have not, and 400 exactly when none has; and the
  -- service is left in the state that the workers leave.
  pub batch_status :
      (service : AnalysisService W) (r : Request) (request : BatchAnalysisRequest) (w : W) (n : ℕ)
      (t : Batch W)
      → IsOrder order
      → IsAccepted (ok request)
      → Run analyze max_concurrent n (started request.domains w) t
      → IsComplete t
      → service.analyze_domains request.domains w
        ≡ (t.world, ok (batch_answer order now request.domains t.sent))
      → (let served = analyze_batch_domains service r (ok request) w in
          HasCode served.response.status (successes t.sent) (length request.domains)
          × (served.service ≡ t.world))
  batch_status service r request w n t o accepted run done answers =
      let (code, left) = analyze_batch_domains-accepted service r request w accepted in
      let code_read = rw answers at code in
      (
        rw code_read (code_of_batch request.domains w n t o accepted.0 run done),
        left ∙ ap (λ x. x.0) answers,
      )
