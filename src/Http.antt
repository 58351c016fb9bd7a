-- ===== src/Http.antt =====
-- internal/http/handlers.go: the handlers of the routes. The analysis service is an interface, the
-- JSON encoder and decoder are parameters, and a response is what the client is sent.
pub mod Status
pub mod Handlers
pub mod Bodies
pub mod ClientIp
pub mod Writer
pub mod Middleware
pub mod Router
pub mod Composed
mod Examples
use Prim.Native.String.{String}
use perion_assignment.Common.{
  ℕ, zero, suc, ◌+◌, ◌/◌, ◌%◌, Bool, true, false, ◌||◌, Option, none, some, List, [], ◌∷◌, ◌++◌,
  if◌then◌else◌, ltb, ◌==◌, length,
}
use perion_assignment.Text.{decimal, Text, codes, contains}
use perion_assignment.Models.{DomainAnalysis, BatchAnalysisRequest, BatchAnalysisResponse}
use perion_assignment.Models.Errors.{GoError, error_text, Result, ok, err}
use perion_assignment.Models.Log.{LogCall, low, medium, log_info, log_success, log_error}

-- `getStatusCodeForError`, which reads the text of the error.
unfoldable pub get_status_code_for_error : GoError → ℕ
get_status_code_for_error e =
    let text = error_text e in
    if contains (codes "not found") text || contains (codes "404") text
    then 404
    else if contains (codes "timeout") text
    then 408
    else if contains (codes "invalid domain") text
    then 400
    else if contains (codes "rate limit") text
    then 429
    else 500

-- `getBatchStatusCode`.
unfoldable pub get_batch_status_code : BatchAnalysisResponse → ℕ
get_batch_status_code response =
    if response.summary.failed == 0
    then 200
    else if response.summary.succeeded == 0
    then 400
    else 207

-- The values that the handlers encode: `ErrorResponse`, an analysis, a batch, `HealthResponse`.
pub data Body : Type 0 where
  error_response : (error message : Text) → (timestamp : ℕ) → Body
  analysis_response : DomainAnalysis → Body
  batch_response : BatchAnalysisResponse → Body
  health_response : (status version : Text) → (timestamp : ℕ) → Body

pub record Response : Type 0 where
  pub status : ℕ
  pub content_type : Text
  pub request_id : Text
  pub body : Body

-- `domainAnalysis.AnalysisService`. An analysis is what its pointer holds when it is encoded.
pub record AnalysisService (S : Type 0) : Type 0 where
  pub analyze_domain : Text → S → S × Result DomainAnalysis
  pub analyze_domains : List Text → S → S × Result BatchAnalysisResponse

-- What a handler leaves: the service's state, its log calls, and the response.
pub record Served (S : Type 0) : Type 0 where
  pub service : S
  pub log : List LogCall
  pub response : Response

-- The answer of the encoder to a value, in the log.
abbrev encoding_error : (operation target message : Text) → Option GoError → List LogCall
encoding_error operation target message none = []
encoding_error operation target message (some e) = log_error operation target message e low ∷ []

-- The log of a handler's end: an error of the encoder, or else the given call.
abbrev encoded : LogCall → (operation target message : Text) → Option GoError → List LogCall
encoded call operation target message none = call ∷ []
encoded call operation target message (some e) = log_error operation target message e low ∷ []

-- A request: the time, the identifier in its logging context, and what the encoder and the
-- connection answer to a body.
pub record Request : Type 0 where
  pub now : ℕ
  pub process_id : Text
  pub encode : Body → Option GoError

-- `writeJSONResponse`: the response, with the encoder's answer.
unfoldable pub write_json_response : Request → ℕ → Body → Response × Option GoError
write_json_response r status body = (
  record {
    status = status;
    content_type = codes "application/json";
    request_id = r.process_id;
    body = body;
  },
  r.encode body,
)

-- The log of a batch that the handler accepts, before the analysis.
abbrev pub started_batch : List Text → List LogCall
started_batch domains =
    log_info (codes "batch_analysis")
      (codes "Starting batch analysis for " ++ decimal (length domains) ++ codes " domains")
    ∷ []

module _ {S : Type 0} where
  -- `writeErrorResponse`, after the given log calls.
  unfoldable pub write_error_response :
      Request → S → List LogCall → ℕ → (error message : Text) → Served S
  write_error_response r s log status error message =
      let (response, failed) = write_json_response r status (error_response error message r.now) in
      record {
        service = s;
        log =
            log
            ++ encoding_error (codes "response_encoding") []
                (codes "Failed to encode error response") failed;
        response = response;
      }

  -- `HealthCheck`.
  unfoldable pub health_check : Request → S → Served S
  health_check r s =
      let (response, failed) =
        write_json_response r 200 (health_response (codes "healthy") (codes "1.0.0") r.now) in
      record {
        service = s;
        log =
            encoded (log_info (codes "health_check") (codes "Health check performed successfully"))
              (codes "health_check") [] (codes "Failed to encode health response") failed;
        response = response;
      }

  -- `AnalyzeSingleDomain` from the service's answer on.
  unfoldable pub on_analysis : Request → Text → List LogCall → S × Result DomainAnalysis → Served S
  on_analysis r domain log (s, err e) =
      write_error_response r s
        (log
          ++ log_error (codes "domain_analysis") domain (codes "Domain analysis failed") e medium
            ∷ [])
        (get_status_code_for_error e) (codes "analysis failed") (error_text e)
  on_analysis r domain log (s, ok analysis) =
      let (response, failed) = write_json_response r 200 (analysis_response analysis) in
      record {
        service = s;
        log =
            log
            ++ encoded
                (log_success (codes "domain_analysis") domain
                  (codes "Successfully analyzed domain"))
                (codes "domain_analysis") domain (codes "Failed to encode response") failed;
        response = response;
      }

  -- `AnalyzeSingleDomain`, with the variable `domain` of the route.
  unfoldable pub analyze_single_domain : AnalysisService S → Request → Text → S → Served S
  analyze_single_domain service r [] s =
      write_error_response r s [] 400 (codes "domain is required") []
  analyze_single_domain service r (c ∷ domain) s =
      on_analysis r (c ∷ domain)
        (log_info (codes "domain_analysis") (codes "Starting analysis for domain: " ++ c ∷ domain)
          ∷ [])
        (service.analyze_domain (c ∷ domain) s)

  -- `AnalyzeBatchDomains` from the service's answer on.
  unfoldable pub on_batch : Request → List LogCall → S × Result BatchAnalysisResponse → Served S
  on_batch r log (s, err e) =
      write_error_response r s
        (log ++ log_error (codes "batch_analysis") [] (codes "Batch analysis failed") e medium ∷ [])
        500 (codes "batch analysis failed") (error_text e)
  on_batch r log (s, ok batch) =
      let (response, failed) =
        write_json_response r (get_batch_status_code batch) (batch_response batch) in
      record {
        service = s;
        log =
            log
            ++ encoded
                (log_success (codes "batch_analysis") [] (
                  codes "Completed batch analysis: "
                  ++ decimal batch.summary.succeeded
                  ++ codes " succeeded, "
                  ++ decimal batch.summary.failed
                  ++ codes " failed"))
                (codes "batch_analysis") [] (codes "Failed to encode batch response") failed;
        response = response;
      }

  -- `AnalyzeBatchDomains`, with the decoder's answer to the body of the request.
  unfoldable pub analyze_batch_domains :
      AnalysisService S → Request → Result BatchAnalysisRequest → S → Served S
  analyze_batch_domains service r (err e) s =
      write_error_response r s
        (log_error (codes "batch_analysis") [] (codes "Invalid request body") e low ∷ []) 400
        (codes "invalid request body") (error_text e)
  analyze_batch_domains service r (ok request) s =
      if length request.domains == 0
      then write_error_response r s [] 400 (codes "domains array cannot be empty") []
      else if ltb 100 (length request.domains)
      then write_error_response r s [] 400 (codes "too many domains")
          (codes "Maximum 100 domains per batch")
      else on_batch r (started_batch request.domains) (service.analyze_domains request.domains s)
