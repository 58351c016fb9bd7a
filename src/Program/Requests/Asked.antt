-- ===== src/Program/Requests/Asked.antt =====
-- How many analyses a request asks for, through the middlewares and the handlers of internal/http.
use mathlib.Core.Bool.{false≢true}
use perion_assignment.Common.{
  ℕ, ◌+◌, ◌≤◌, ◌≡◌, ap, false, Option, none, List, [], ◌∷◌, arith, length, length-append,
  Bool-cases, inl, inr, ◌==◌, ltb,
}
use perion_assignment.Text.{Text}
use perion_assignment.Models.{BatchAnalysisRequest}
use perion_assignment.Models.Errors.{GoError, Result, ok, err}
use perion_assignment.Http.{
  Body, Request, write_json_response, write_error_response, on_analysis, analyze_single_domain,
  on_batch, analyze_batch_domains, health_check,
}
use perion_assignment.Http.Middleware.{Incoming, Exchange, Ending, RateLimiter}
use perion_assignment.Http.Middleware.Ends.{handed, begun}
use perion_assignment.Http.Middleware.Outcomes.{
  Outcome, limited, preflight, rescued, passed, chain-Outcome,
}
use perion_assignment.Logger.{Context}
use perion_assignment.Http.Router.{
  Route, health, analyze, batch_analysis, root, handler_of, served, fresh,
}
use perion_assignment.Program.Requests.{noting, admits_nobody, asked_for}

few_enough : {n : ℕ} → ltb 100 n ≡ false → n ≤ 100
few_enough h = ground arith

single_asks :
    (r : Request) (domain : Text) (asked : List Text)
    → length (analyze_single_domain noting r domain asked).service ≤ 100 + length asked
unfolding analyze_single_domain on_analysis write_error_response write_json_response
single_asks r [] asked = omega arith
single_asks r (c ∷ domain) asked = omega arith

batch_asks :
    (r : Request) (decoded : Result BatchAnalysisRequest) (asked : List Text)
    → length (analyze_batch_domains noting r decoded asked).service ≤ 100 + length asked
unfolding analyze_batch_domains on_batch write_error_response write_json_response
batch_asks r (err e) asked = omega arith
batch_asks r (ok request) asked = elim (Bool-cases (length request.domains == 0)) [
  | inl none_given ↦ rw none_given (omega arith)
  | inr some_given ↦ elim (Bool-cases (ltb 100 (length request.domains))) [
    | inl too_many ↦ rw (some_given, too_many) (omega arith)
    | inr few ↦
        rw (some_given, few) (omega (arith, few_enough few, length-append request.domains asked))
  ]
]

module _ (decode : Text → Result BatchAnalysisRequest) (encode : Body → Option GoError) where
  handler_asks :
      (route : Route) (r : Incoming) (ctx : Context) (x : Exchange (List Text))
      → length (handler_of noting decode encode route r ctx x).0.world ≤ 100 + length x.world
  unfolding handler_of served health_check
  handler_asks health r ctx x = omega arith
  handler_asks (analyze domain) r ctx x = single_asks _ domain x.world
  handler_asks batch_analysis r ctx x = batch_asks _ (decode r.body) x.world
  handler_asks root r ctx x = omega arith

  -- A request asks for a hundred analyses at most, and for none if it is refused.
  pub asked_for-le :
      (limiter : RateLimiter Unit) (route : Route) (r : Incoming)
      → length (asked_for decode encode limiter route r) ≤ 100
  unfolding handed begun
  asked_for-le limiter route r =
      go _ (chain-Outcome limiter (handler_of noting decode encode route) r none (fresh (tt, [])))
    where
      go :
          (y : Exchange (Unit × List Text) × Ending)
          → Outcome limiter (handler_of noting decode encode route) r none (fresh (tt, [])) y
          → length y.0.world.1 ≤ 100
      go y (limited h e) = rw (ap (λ x. x.1) e.world_after) (omega arith)
      go y (preflight h o e) = rw (ap (λ x. x.1) e.world_after) (omega arith)
      go y (rescued p h o k e) = rw (ap (λ x. x.1) e.world_after) (handler_asks route r _ _)
      go y (passed h o k e) = rw (ap (λ x. x.1) e.world_after) (handler_asks route r _ _)

  pub asked_for-nobody :
      (route : Route) (r : Incoming) → asked_for decode encode admits_nobody route r ≡ []
  asked_for-nobody route r =
      go _ (
        chain-Outcome admits_nobody (handler_of noting decode encode route) r none (fresh (tt, [])))
    where
      go :
          (y : Exchange (Unit × List Text) × Ending)
          → Outcome admits_nobody (handler_of noting decode encode route) r none (fresh (tt, [])) y
          → y.0.world.1 ≡ []
      go y (limited h e) = ap (λ x. x.1) e.world_after
      go y (preflight h o e) = absurd (false≢true h)
      go y (rescued p h o k e) = absurd (false≢true h)
      go y (passed h o k e) = absurd (false≢true h)
