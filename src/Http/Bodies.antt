-- ===== src/Http/Bodies.antt =====
-- Which bodies the handlers of internal/http/handlers.go send under which status.
use perion_assignment.Common.{
  ℕ, ◌≡◌, refl, ◌⊎◌, inl, inr, List, [], ◌∷◌, arith, length, ◌==◌, ltb, Bool-cases,
}
use perion_assignment.Text.{Text}
use perion_assignment.Models.{BatchAnalysisRequest, BatchAnalysisResponse, DomainAnalysis}
use perion_assignment.Models.Errors.{GoError, Result, ok, err}
use perion_assignment.Models.Log.{LogCall}
use perion_assignment.Http.{
  Body, error_response, analysis_response, batch_response, health_response, Request, Served,
  AnalysisService, get_status_code_for_error, get_batch_status_code, write_json_response,
  write_error_response, on_analysis, analyze_single_domain, on_batch, analyze_batch_domains,
  health_check,
}
use perion_assignment.Http.Handlers.{HasHeaders, handlers-HasHeaders}

-- What a route answers with.
pub data Kind : Type 0 where
  analyses batches healths : Kind

-- The statuses of an error.
abbrev pub IsErrorCode : ℕ → Type 0
IsErrorCode code = (code ≡ 400) ⊎ (code ≡ 404) ⊎ (code ≡ 408) ⊎ (code ≡ 429) ⊎ (code ≡ 500)

abbrev pub IsBody : Kind → ℕ → Body → Type 0
IsBody analyses status (error_response error message at) = IsErrorCode status
IsBody analyses status (analysis_response d) = status ≡ 200
IsBody batches status (error_response error message at) = IsErrorCode status
IsBody batches status (batch_response b) = status ≡ get_batch_status_code b
IsBody healths status (health_response state version at) = status ≡ 200
IsBody _ status _ = ⊥

-- A response of a route: its headers, and a body that fits its status.
abbrev pub IsTyped : {S : Type 0} → Kind → Request → Served S → Type 0
IsTyped kind r served =
    HasHeaders r served × IsBody kind served.response.status served.response.body

code-IsErrorCode : (e : GoError) → IsErrorCode (get_status_code_for_error e)
unfolding get_status_code_for_error
code-IsErrorCode e = ground arith

module _ {S : Type 0} (service : AnalysisService S) (r : Request) where
  on_analysis-IsBody :
      (domain : Text) (log : List LogCall) (answer : S × Result DomainAnalysis)
      → IsBody analyses
          (on_analysis r domain log answer).response.status
          (on_analysis r domain log answer).response.body
  unfolding on_analysis write_error_response write_json_response
  on_analysis-IsBody domain log (s, err e) = code-IsErrorCode e
  on_analysis-IsBody domain log (s, ok d) = refl

  on_batch-IsBody :
      (log : List LogCall) (answer : S × Result BatchAnalysisResponse)
      → IsBody batches (on_batch r log answer).response.status (on_batch r log answer).response.body
  unfolding on_batch write_error_response write_json_response
  on_batch-IsBody log (s, err e) = inr (inr (inr (inr refl)))
  on_batch-IsBody log (s, ok batch) = refl

  single-IsBody :
      (domain : Text) (s : S)
      → (let served = analyze_single_domain service r domain s in
          IsBody analyses served.response.status served.response.body)
  unfolding analyze_single_domain write_error_response write_json_response
  single-IsBody [] s = inl refl
  single-IsBody (c ∷ domain) s =
      on_analysis-IsBody (c ∷ domain) _ (service.analyze_domain (c ∷ domain) s)

  batch-IsBody :
      (decoded : Result BatchAnalysisRequest) (s : S)
      → (let served = analyze_batch_domains service r decoded s in
          IsBody batches served.response.status served.response.body)
  unfolding analyze_batch_domains write_error_response write_json_response
  batch-IsBody (err e) s = inl refl
  batch-IsBody (ok request) s = elim (Bool-cases (length request.domains == 0)) [
    | inl none_given ↦ rw none_given (inl refl)
    | inr some_given ↦ elim (Bool-cases (ltb 100 (length request.domains))) [
      | inl too_many ↦ rw (some_given, too_many) (inl refl)
      | inr few ↦
          rw (some_given, few) (on_batch-IsBody _ (service.analyze_domains request.domains s))
    ]
  ]

  -- Whatever a request is, and whatever the service answers: the handler of a domain sends an analysis
  -- with 200 or an error with one of the five statuses of errors, the handler of a batch sends such
  -- an error or a batch with the status of its summary, and the third handler sends the health with
  -- 200; each as JSON and with the identifier of its request.
  pub handlers-IsTyped :
      (domain : Text) (decoded : Result BatchAnalysisRequest) (s : S)
      → IsTyped analyses r (analyze_single_domain service r domain s)
        × IsTyped batches r (analyze_batch_domains service r decoded s)
        × IsTyped healths r (health_check r s)
  handlers-IsTyped domain decoded s =
      let (single, batch, health) = handlers-HasHeaders service r domain decoded s in
      (
        (single, single-IsBody domain s),
        (batch, batch-IsBody decoded s),
        (health, unfold health_check write_json_response in refl),
      )
