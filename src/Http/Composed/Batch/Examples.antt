-- ===== src/Http/Composed/Batch/Examples.antt =====
-- A batch of two domains of which one is found, and the theorem on the status of a batch there.
use mathlib.Core.List.Perm
use perion_assignment.Common.{
  true, ℕ, zero, suc, ◌≡◌, refl, ◌<◌, ◌↔◌, false, none, List, [], ◌∷◌, arith,
}
use perion_assignment.Text.{Text, codes}
use perion_assignment.Dict.{Dict}
use perion_assignment.Models.{DomainAnalysis, BatchAnalysisRequest}
use perion_assignment.Models.Errors.{domain_not_found, Result, ok, err}
use perion_assignment.Analysis.Aggregate.{successes}
use perion_assignment.Models.Log.{medium, log_error}
use perion_assignment.Analysis.Batch.{
  worker_log, domain_result, Batch, started, acquire, finish, release, is_done, closes, receives,
  answers, Run, rests, steps, batch_answer,
}
use perion_assignment.Http.{Request, AnalysisService, analyze_batch_domains}
use perion_assignment.Http.Composed.Batch.{batch_status}

abbrev empty_analysis : DomainAnalysis
empty_analysis = record {
  domain = codes "y.org";
  total_advertisers = 0;
  advertisers = [];
  cached = false;
  timestamp = 1;
}

-- An analysis that succeeds at its first call alone.
abbrev first_found : Text → ℕ → ℕ × Result DomainAnalysis
first_found domain zero = (1, ok empty_analysis)
first_found domain (suc n) = (suc (suc n), err domain_not_found)

abbrev in_order : Dict ℕ → List (Text × ℕ)
in_order m = m

abbrev request : BatchAnalysisRequest
request = record { domains = codes "x.org" ∷ codes "y.org" ∷ [] }

-- The second domain is asked for before the first.
abbrev finished : Batch ℕ
finished = record {
  waiting = [];
  running = [];
  releasing = 0;
  ending = 0;
  taken = 0;
  counter = 0;
  capacity = 2;
  sent =
      domain_result 7 (codes "y.org") (ok empty_analysis)
      ∷ domain_result 9 (codes "x.org") (err domain_not_found)
      ∷ [];
  received = 2;
  is_closed = true;
  answered = true;
  log =
      log_error (codes "batch_analysis") (codes "x.org") (codes "Failed to analyze domain in batch")
        domain_not_found medium
      ∷ [];
  world = 2;
}

schedule : Run first_found 1 12 (started request.domains 0) finished
unfolding worker_log
schedule = steps (acquire (codes "x.org" ∷ []) [] (codes "y.org") refl (omega arith)) (
    steps (finish 7 [] [] (codes "y.org") refl refl (omega arith)) (
      steps (release 0 0 refl refl) (
        steps (is_done 0 1 refl refl) (
          steps (receives (omega arith)) (
            steps (acquire [] [] (codes "x.org") refl (omega arith)) (
              steps (finish 9 [] [] (codes "x.org") refl refl (omega arith)) (
                steps (release 0 0 refl refl) (
                  steps (is_done 0 0 refl refl) (
                    steps (closes refl refl) (
                      steps (receives (omega arith))
                        (steps (answers refl refl refl) rests)))))))))))

abbrev service : AnalysisService ℕ
service = record {
  analyze_domain = first_found;
  analyze_domains = λ domains w. (2, ok (batch_answer in_order 10 domains finished.sent));
}

abbrev r : Request
r = record { now = 11; process_id = codes "p"; encode = λ body. none }

batch_status_example :
    (let served = analyze_batch_domains service r (ok request) 0 in
      let good = successes finished.sent in
      (((served.response.status ≡ 200) ↔ (good ≡ 2))
        × ((served.response.status ≡ 207) ↔ ((0 < good) × (good < 2)))
        × ((served.response.status ≡ 400) ↔ (good ≡ 0)))
      × (served.service ≡ 2))
batch_status_example =
    batch_status first_found 1 in_order 10 service r request 0 12 finished (λ m. Perm.refl m)
      (omega arith, omega arith) schedule refl refl
