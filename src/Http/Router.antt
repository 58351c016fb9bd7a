-- ===== src/Http/Router.antt =====
-- internal/http/router.go: the routes and the server's handler. gorilla/mux is a parameter: to a
-- method and a path it answers a route, or a handler of its own, which it calls without the
-- middlewares.
pub mod Statuses
pub mod Bound
pub mod Again
mod Examples
use Prim.Native.String.{String}
use perion_assignment.Common.{ℕ, Option, none, some, List, [], ◌∷◌, ◌++◌, map}
use perion_assignment.Text.{Text, codes}
use perion_assignment.Models.{BatchAnalysisRequest}
use perion_assignment.Models.Errors.{GoError, Result}
use perion_assignment.Models.Log.{LogCall, LogEvent}
use perion_assignment.Logger.{Context}
use perion_assignment.Http.{
  Body, Request, Served, AnalysisService, health_check, analyze_single_domain,
  analyze_batch_domains,
}
use perion_assignment.Http.Writer.{
  literal, ResponseWriter, new_writer, set_header, write_header, write, respond,
}
use perion_assignment.Http.Middleware.{
  no_metadata, Logged, Incoming, Exchange, Ending, returned, Handler, event_of, RateLimiter, chain,
}

-- The routes that `registerRoutes` registers, with the variable of the second.
pub data Route : Type 0 where
  health : Route
  analyze : (domain : Text) → Route
  batch_analysis : Route
  root : Route

-- Their methods.
unfoldable pub method_of : Route → Text
method_of health = codes "GET"
method_of (analyze domain) = codes "GET"
method_of batch_analysis = codes "POST"
method_of root = codes "GET"

-- What the router answers to a method and a path.
pub data Match (W : Type 0) : Type 0 where
  found : Route → Match W
  unmatched : Handler W → Match W

-- The calls of a handler in the log, with the event of its context.
abbrev pub logged_calls : LogEvent → List LogCall → List Logged
logged_calls event [] = []
logged_calls event (call ∷ calls) =
    record { event = event; call = call; metadata = no_metadata } ∷ logged_calls event calls

module _ {S : Type 0} (service : AnalysisService S) (decode : Text → Result BatchAnalysisRequest)
    (encode : Body → Option GoError) where
  -- What the handlers of internal/http/handlers.go leave, in the state of the exchange.
  unfoldable pub served : LogEvent → Exchange S → Served S → Exchange S × Ending
  served event x s = (
    record {
      world = s.service;
      writer = respond encode s.response x.writer;
      log = x.log ++ logged_calls event s.log;
    },
    returned,
  )

  abbrev pub request_of : Incoming → LogEvent → Request
  request_of r event = record { now = r.now; process_id = event.process_id; encode = encode }

  -- The handler of a route.
  unfoldable pub handler_of : Route → Handler S
  unfolding served
  handler_of health r ctx x =
      let event = event_of r ctx in served event x (health_check (request_of r event) x.world)
  handler_of (analyze domain) r ctx x =
      let event = event_of r ctx in
      served event x (analyze_single_domain service (request_of r event) domain x.world)
  handler_of batch_analysis r ctx x =
      let event = event_of r ctx in
      served event x (analyze_batch_domains service (request_of r event) (decode r.body) x.world)
  handler_of root r ctx x = (
    record x {
      writer =
          write
            (literal (
              codes
                "{\"message\":\"AdsTxt Analysis API\",\"version\":\"1.0.0\",\"endpoints\":[\"/health\",\"/api/analyze/{domain}\",\"/api/batch-analysis\"]}"))
            (write_header 200
              (set_header (codes "Content-Type") (codes "application/json") x.writer));
    },
    returned,
  )

  -- The server's handler: the middlewares stand before the handlers of the routes only.
  unfoldable pub on_match : {L : Type 0} → RateLimiter L → Match (L × S) → Handler (L × S)
  unfolding chain
  on_match limiter (found route) = chain limiter (handler_of route)
  on_match limiter (unmatched own) = own

  unfoldable pub serve :
      {L : Type 0} → (mux : Text → Text → Match (L × S)) → RateLimiter L → Handler (L × S)
  unfolding on_match
  serve mux limiter r ctx x = on_match limiter (mux r.method r.path) r ctx x

-- A connection that nothing is sent on, and an empty log.
abbrev pub fresh : {W : Type 0} → W → Exchange W
fresh w = record { world = w; writer = record { writer = new_writer; status_code = 0 }; log = [] }
