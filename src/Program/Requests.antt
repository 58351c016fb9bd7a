-- ===== src/Program/Requests.antt =====
-- The requests of the server that main.go makes, at the same time: the calls of the limiter in
-- internal/http/middlewares.go, and, for a request that it admits, the calls of `AnalyzeDomain` that
-- internal/http/handlers.go and internal/domainAnalysis/analysis.go make for the domains that it names,
-- in the steps of RateLimit.Interleaved and Analysis.Shared, in any order.
pub mod Asked
pub mod Bound
mod Examples
use perion_assignment.Common.{ℕ, ◌<◌, false, Option, none, some, List, [], ◌∷◌, ◌++◌}
use perion_assignment.Text.{Text, text_eq}
use perion_assignment.Models.{BatchAnalysisRequest}
use perion_assignment.Models.Errors.{GoError, domain_not_found, Result, err}
use perion_assignment.Http.{Body, AnalysisService}
use perion_assignment.Http.Middleware.{Incoming, RateLimiter, chain}
use perion_assignment.Http.Router.{Route, handler_of, fresh}
use perion_assignment.Analysis.Service.{Parts, World}
use perion_assignment.Analysis.Shared.{
  asks, Call, call, Answer, Pool, pool, Step, joins, goes, leaves, leaves_refused, sweeps,
}
use perion_assignment.RateLimit.Interleaved.{Calls, Move, move}
use perion_assignment.RateLimit.Interleaved.PerIp.{times_in}

-- The calls of the limiter, those of `AnalyzeDomain`, and the addresses of the requests that were
-- handed on and of the analyses that they asked for.
pub record Site (S : Type 0) : Type 0 where
  pub limiter : Calls
  pub analyses : Pool S
  pub entered : List Text
  pub asked : List Text

abbrev pub site : {S : Type 0} → Calls → Pool S → (entered asked : List Text) → Site S
site limiter analyses entered asked = record {
  limiter = limiter;
  analyses = analyses;
  entered = entered;
  asked = asked;
}

-- A call for each domain, beside those that run.
abbrev pub joined : List Text → List Call → List Call
joined [] calls = calls
joined (domain ∷ domains) calls = joined domains (call domain asks ∷ calls)

-- An address, once for each domain.
abbrev pub once_for_each : Text → List Text → List Text → List Text
once_for_each ip [] asked = asked
once_for_each ip (domain ∷ domains) asked = ip ∷ once_for_each ip domains asked

-- A service that notes the domains that it is asked for.
abbrev pub noting : AnalysisService (List Text)
noting = record {
  analyze_domain = λ domain asked. (domain ∷ asked, err domain_not_found);
  analyze_domains = λ domains asked. (domains ++ asked, err domain_not_found);
}

-- The limiter's answer to one call: it admits an address, or nobody.
abbrev pub admits_only : Text → RateLimiter Unit
admits_only ip = record { allow_request = λ times other l. (l, text_eq other ip) }

abbrev pub admits_nobody : RateLimiter Unit
admits_nobody = record { allow_request = λ times other l. (l, false) }

-- The domains that a request of a route asks the service for, through the middlewares and its handler.
abbrev pub asked_for :
    (Text → Result BatchAnalysisRequest)
    → (Body → Option GoError)
    → RateLimiter Unit
    → Route
    → Incoming
    → List Text
asked_for decode encode limiter route r =
    (chain limiter (handler_of noting decode encode route) r none (fresh (tt, []))).0.world.1

-- The steps of a pool that are not the start of a call.
abbrev pub GoesOn :
    {S : Type 0} {parts : Parts S} {sweep : ℕ → S → S} {Served : (domain content : Text) → Type 0}
    {p q : Pool S}
    → Step parts sweep Served p q
    → Type 0
GoesOn (joins domain) = ⊥
GoesOn (goes before after domain phase input gives) = Unit
GoesOn (leaves before after domain a) = Unit
GoesOn (leaves_refused before after domain e) = Unit
GoesOn (sweeps now) = Unit

-- Any steps, over the moves of the limiter among them: one of the limiter; a request that has its answer
-- that admits an address, each such answer being had by one request, or one that refuses; and a step
-- of an analysis. The analyses that a request asks for start with it.
pub data Run {S : Type 0} (parts : Parts S) (sweep : ℕ → S → S)
    (Served : (domain content : Text) → Type 0) (decode : Text → Result BatchAnalysisRequest)
    (encode : Body → Option GoError) : List Move → Site S → Site S → Type 0 where
  rests : {s : Site S} → Run parts sweep Served decode encode [] s s
  limits :
      (m : Move) {moves : List Move} {limiter : Calls} {analyses : Pool S}
      {entered asked : List Text} {t : Site S}
      → Run parts sweep Served decode encode moves (site (move m limiter) analyses entered asked) t
      → Run parts sweep Served decode encode (m ∷ moves) (site limiter analyses entered asked) t
  enters :
      (ip : Text) (route : Route) (r : Incoming) {moves : List Move} {limiter : Calls}
      {calls : List Call} {w : World S} {answers : List Answer} {entered asked : List Text}
      {t : Site S}
      → times_in ip entered < times_in ip limiter.admitted
      → Run parts sweep Served decode encode moves
          (site limiter
            (pool (joined (asked_for decode encode (admits_only ip) route r) calls) w answers)
            (ip ∷ entered)
            (once_for_each ip (asked_for decode encode (admits_only ip) route r) asked))
          t
      → Run parts sweep Served decode encode moves
          (site limiter (pool calls w answers) entered asked)
          t
  is_refused :
      (ip : Text) (route : Route) (r : Incoming) {moves : List Move} {limiter : Calls}
      {calls : List Call} {w : World S} {answers : List Answer} {entered asked : List Text}
      {t : Site S}
      → Run parts sweep Served decode encode moves
          (site limiter
            (pool (joined (asked_for decode encode admits_nobody route r) calls) w answers)
            entered
            (once_for_each ip (asked_for decode encode admits_nobody route r) asked))
          t
      → Run parts sweep Served decode encode moves
          (site limiter (pool calls w answers) entered asked)
          t
  works :
      {moves : List Move} {limiter : Calls} {p q : Pool S} {entered asked : List Text} {t : Site S}
      (step : Step parts sweep Served p q)
      → GoesOn step
      → Run parts sweep Served decode encode moves (site limiter q entered asked) t
      → Run parts sweep Served decode encode moves (site limiter p entered asked) t
