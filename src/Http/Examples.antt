-- ===== src/Http/Examples.antt =====
-- Runs of internal/http/handlers.go, and the theorems on the handlers at them.
use perion_assignment.Common.{ℕ, suc, none, [], ◌∷◌, ◌≡◌, refl, inr, true}
use perion_assignment.Text.{decimal, codes, contains, has_prefix}
use perion_assignment.Models.Errors.{
  domain_not_found, fetch_timeout, invalid_domain, domain_error, plain, error_text, Result, ok, err,
}
use perion_assignment.Models.{BatchAnalysisRequest}
use perion_assignment.Http.{
  get_status_code_for_error, AnalysisService, Request, analyze_single_domain, analyze_batch_domains,
  health_check,
}
use perion_assignment.Http.Bodies.{analyses, batches, healths, IsTyped, handlers-IsTyped}
use perion_assignment.Http.Status.{get_status_code-domain_error}

-- What the runs unfold.
codes_of_errors : Unit {0}
unfolding contains has_prefix error_text get_status_code_for_error decimal
codes_of_errors = tt

runs :
    (get_status_code_for_error domain_not_found ≡ 404)
    × (get_status_code_for_error fetch_timeout ≡ 408)
    × (get_status_code_for_error invalid_domain ≡ 400)
    × (get_status_code_for_error (plain (codes "connection refused")) ≡ 500)
    × (decimal 0 ≡ codes "0")
    × (decimal 1207 ≡ codes "1207")
unfolding codes_of_errors
runs = (refl, refl, refl, refl, refl, refl)

names_404 : contains (codes "404") (codes "shop404.com") ≡ true
unfolding codes_of_errors
names_404 = refl

get_status_code-domain_error_example :
    get_status_code_for_error
      (domain_error (codes "shop404.com") (codes "failed to fetch ads.txt") fetch_timeout)
    ≡ 404
get_status_code-domain_error_example =
    get_status_code-domain_error (codes "shop404.com") (codes "failed to fetch ads.txt")
      fetch_timeout (inr names_404)

-- A service that finds nothing, and a batch of one domain.
abbrev nowhere : AnalysisService ℕ
nowhere = record {
  analyze_domain = λ domain n. (suc n, err domain_not_found);
  analyze_domains = λ domains n. (suc n, err domain_not_found);
}

abbrev asked : Request
asked = record { now = 1; process_id = codes "id"; encode = λ body. none }

abbrev one_domain : Result BatchAnalysisRequest
one_domain = ok (record { domains = codes "x.org" ∷ [] })

handlers-IsTyped_example :
    IsTyped analyses asked (analyze_single_domain nowhere asked (codes "x.org") 0)
    × IsTyped batches asked (analyze_batch_domains nowhere asked one_domain 0)
    × IsTyped {S = ℕ} healths asked (health_check asked 0)
handlers-IsTyped_example = handlers-IsTyped nowhere asked (codes "x.org") one_domain 0
