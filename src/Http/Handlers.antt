-- ===== src/Http/Handlers.antt =====
-- What the handlers of internal/http/handlers.go answer on every branch.
use perion_assignment.Common.{
  ℕ, ◌≤◌, ◌<◌, ◌≡◌, refl, ◌⊎◌, inl, inr, false, List, [], ◌∷◌, arith, ◌==◌, ltb, length,
}
use perion_assignment.Text.{Text, codes}
use perion_assignment.Models.{DomainAnalysis, BatchAnalysisRequest, BatchAnalysisResponse}
use perion_assignment.Models.Errors.{Result, ok, err}
use perion_assignment.Models.Log.{LogCall}
use perion_assignment.Http.{
  Request, Served, AnalysisService, write_json_response, write_error_response, on_analysis,
  analyze_single_domain, health_check, started_batch, on_batch, analyze_batch_domains,
  get_batch_status_code,
}

-- A decoded request that the batch handler accepts.
abbrev pub IsAccepted : Result BatchAnalysisRequest → Type 0
IsAccepted (err e) = ⊥
IsAccepted (ok request) = (1 ≤ length request.domains) × (length request.domains ≤ 100)

-- What every response has: the type and the identifier of the request in its headers.
abbrev pub HasHeaders : {S : Type 0} → Request → Served S → Type 0
HasHeaders r served =
    (served.response.content_type ≡ codes "application/json")
    × (served.response.request_id ≡ r.process_id)

-- The three cases of the number of domains.
count_cases : (n : ℕ) → (n ≡ 0) ⊎ ((100 < n) ⊎ ((1 ≤ n) × (n ≤ 100)))
count_cases n = ground arith

module _ {S : Type 0} (service : AnalysisService S) (r : Request) where
  too_few :
      (request : BatchAnalysisRequest) (s : S)
      → length request.domains ≡ 0
      → analyze_batch_domains service r (ok request) s
        ≡ write_error_response r s [] 400 (codes "domains array cannot be empty") []
  unfolding analyze_batch_domains
  too_few request s h = rw h refl

  too_many :
      (request : BatchAnalysisRequest) (s : S)
      → 100 < length request.domains
      → analyze_batch_domains service r (ok request) s
        ≡ write_error_response r s [] 400
            (codes "too many domains")
            (codes "Maximum 100 domains per batch")
  unfolding analyze_batch_domains
  too_many request s h = ground arith

  -- A batch that is not decoded, is empty or names more than 100 domains is answered with 400 and
  -- does not reach the analysis.
  pub analyze_batch_domains-refused :
      (decoded : Result BatchAnalysisRequest) (s : S)
      → ¬ IsAccepted decoded
      → ((analyze_batch_domains service r decoded s).response.status ≡ 400)
        × ((analyze_batch_domains service r decoded s).service ≡ s)
  unfolding write_error_response write_json_response
  analyze_batch_domains-refused (err e) s h = unfold analyze_batch_domains in (refl, refl)
  analyze_batch_domains-refused (ok request) s h = elim (count_cases (length request.domains)) [
    | inl none_given ↦ rw (too_few request s none_given) (refl, refl)
    | inr (inl more) ↦ rw (too_many request s more) (refl, refl)
    | inr (inr fits) ↦ absurd (h fits)
  ]

  -- The code of an accepted batch.
  abbrev code_of_answer : Result BatchAnalysisResponse → ℕ
  code_of_answer (err e) = 500
  code_of_answer (ok batch) = get_batch_status_code batch

  on_batch-HasHeaders :
      (log : List LogCall) (answer : S × Result BatchAnalysisResponse)
      → HasHeaders r (on_batch r log answer)
  unfolding on_batch write_error_response write_json_response
  on_batch-HasHeaders log (s, err e) = (refl, refl)
  on_batch-HasHeaders log (s, ok batch) = (refl, refl)

  on_batch-answer :
      (log : List LogCall) (answer : S × Result BatchAnalysisResponse)
      → ((on_batch r log answer).response.status ≡ code_of_answer answer.1)
        × ((on_batch r log answer).service ≡ answer.0)
  unfolding on_batch write_error_response write_json_response
  on_batch-answer log (s, err e) = (refl, refl)
  on_batch-answer log (s, ok batch) = (refl, refl)

  -- An accepted batch reaches the analysis.
  reaches :
      (request : BatchAnalysisRequest) (s : S)
      → IsAccepted (ok request)
      → analyze_batch_domains service r (ok request) s
        ≡ on_batch r (started_batch request.domains) (service.analyze_domains request.domains s)
  unfolding analyze_batch_domains
  reaches request s (some_given, few) = rw (not_zero some_given, not_above few) refl
    where
      not_zero : {n : ℕ} → 1 ≤ n → (n == 0) ≡ false
      not_zero h = ground arith

      not_above : {n : ℕ} → n ≤ 100 → ltb 100 n ≡ false
      not_above h = ground arith

  -- A batch of 1 to 100 domains reaches the analysis, once, and its answer decides the status.
  pub analyze_batch_domains-accepted :
      (request : BatchAnalysisRequest) (s : S)
      → IsAccepted (ok request)
      → ((analyze_batch_domains service r (ok request) s).response.status
          ≡ code_of_answer (service.analyze_domains request.domains s).1)
        × ((analyze_batch_domains service r (ok request) s).service
            ≡ (service.analyze_domains request.domains s).0)
  analyze_batch_domains-accepted request s h =
      rw (reaches request s h) (on_batch-answer _ (service.analyze_domains request.domains s))

  on_analysis-HasHeaders :
      (domain : Text) (log : List LogCall) (answer : S × Result DomainAnalysis)
      → HasHeaders r (on_analysis r domain log answer)
  unfolding on_analysis write_error_response write_json_response
  on_analysis-HasHeaders domain log (s, err e) = (refl, refl)
  on_analysis-HasHeaders domain log (s, ok analysis) = (refl, refl)

  single-HasHeaders :
      (domain : Text) (s : S) → HasHeaders r (analyze_single_domain service r domain s)
  unfolding analyze_single_domain write_error_response write_json_response
  single-HasHeaders [] s = (refl, refl)
  single-HasHeaders (c ∷ domain) s =
      on_analysis-HasHeaders (c ∷ domain) _ (service.analyze_domain (c ∷ domain) s)

  batch-HasHeaders :
      (decoded : Result BatchAnalysisRequest) (s : S)
      → HasHeaders r (analyze_batch_domains service r decoded s)
  unfolding write_error_response write_json_response
  batch-HasHeaders (err e) s = unfold analyze_batch_domains in (refl, refl)
  batch-HasHeaders (ok request) s = elim (count_cases (length request.domains)) [
    | inl none_given ↦ rw (too_few request s none_given) (refl, refl)
    | inr (inl more) ↦ rw (too_many request s more) (refl, refl)
    | inr (inr fits) ↦
        rw (reaches request s fits)
          (on_batch-HasHeaders _ (service.analyze_domains request.domains s))
  ]

  -- On every branch of every handler, the response names the identifier of its request and says that
  -- it is JSON.
  pub handlers-HasHeaders :
      (domain : Text) (decoded : Result BatchAnalysisRequest) (s : S)
      → HasHeaders r (analyze_single_domain service r domain s)
        × HasHeaders r (analyze_batch_domains service r decoded s)
        × HasHeaders r (health_check r s)
  handlers-HasHeaders domain decoded s = (
    single-HasHeaders domain s,
    batch-HasHeaders decoded s,
    unfold health_check write_json_response in (refl, refl),
  )
