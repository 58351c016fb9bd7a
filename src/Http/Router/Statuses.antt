-- ===== src/Http/Router/Statuses.antt =====
-- The statuses that the server of internal/http/router.go sends and logs.
use perion_assignment.Common.{ℕ, ◌≡◌, refl, ◌∙◌, sym, Option, none, some, List, ◌⊎◌, inl, inr}
use perion_assignment.Text.{Text, codes}
use perion_assignment.Dict.{Dict}
use perion_assignment.Models.{BatchAnalysisRequest}
use perion_assignment.Models.Errors.{GoError, Result}
use perion_assignment.Logger.{Context}
use perion_assignment.Http.{Body, Response, AnalysisService}
use perion_assignment.Http.Writer.{
  Chunk, ResponseWriter, set_header, send_header, write_header, write, write_encoded, respond,
}
use perion_assignment.Http.Middleware.{
  Incoming, Exchange, Ending, returned, panicked, Handler, RateLimiter, cors_headers,
}
use perion_assignment.Http.Middleware.Ends.{
  status_in, status_of, last_completed, begun, handed, Ends,
}
use perion_assignment.Http.Middleware.Outcomes.{
  Outcome, limited, preflight, rescued, passed, chain-Outcome,
}
use perion_assignment.Http.Router.{
  Route, health, analyze, batch_analysis, root, method_of, Match, found, unmatched, served,
  handler_of, on_match, serve, fresh,
}

-- A writer that nothing was sent by.
abbrev unsent : Dict Text → List Chunk → (code : ℕ) → ResponseWriter
unsent headers body code = record {
  writer = record { headers = headers; sent = none; body = body };
  status_code = code;
}

-- What is sent and what the wrapped writer saw are one status.
abbrev pub SentAsSeen : ResponseWriter → Type 0
SentAsSeen w = status_in w.writer.sent ≡ some w.status_code

respond-SentAsSeen :
    (encode : Body → Option GoError) (response : Response) (headers : Dict Text) (body : List Chunk)
    (code : ℕ)
    → SentAsSeen (respond encode response (unsent headers body code))
unfolding respond write send_header set_header write_header
respond-SentAsSeen encode response headers body code = go (encode response.body)
  where
    go :
        (answer : Option GoError)
        → SentAsSeen (
            write_encoded answer response.body (
              write_header response.status (
                set_header (codes "X-Request-ID") response.request_id (
                  set_header
                    (codes "Content-Type")
                    response.content_type
                    (unsent headers body code)))))
    go none = refl
    go (some e) = refl

module _ {S : Type 0} (service : AnalysisService S) (decode : Text → Result BatchAnalysisRequest)
    (encode : Body → Option GoError) where
  -- The handler of a route returns, and has sent the status that the wrapped writer saw.
  pub handler_of-returned :
      (route : Route) (r : Incoming) (ctx : Context) (x : Exchange S)
      → (handler_of service decode encode route r ctx x).1 ≡ returned
  unfolding handler_of served
  handler_of-returned health r ctx x = refl
  handler_of-returned (analyze domain) r ctx x = refl
  handler_of-returned batch_analysis r ctx x = refl
  handler_of-returned root r ctx x = refl

  handler_of-SentAsSeen :
      (route : Route) (r : Incoming) (ctx : Context) (w : S)
      → SentAsSeen (handler_of service decode encode route r ctx (handed r (fresh w))).0.writer
  unfolding handler_of served handed begun cors_headers set_header write write_header send_header
  handler_of-SentAsSeen health r ctx w = respond-SentAsSeen encode _ _ _ _
  handler_of-SentAsSeen (analyze domain) r ctx w = respond-SentAsSeen encode _ _ _ _
  handler_of-SentAsSeen batch_analysis r ctx w = respond-SentAsSeen encode _ _ _ _
  handler_of-SentAsSeen root r ctx w = refl

-- A request returns with a status, which is the one that its last log entry names.
abbrev pub IsLogged : {W : Type 0} → Exchange W × Ending → Type 0
IsLogged y =
    (y.1 ≡ returned)
    × (last_completed y.0.log ≡ status_of y.0)
    × ((status : ℕ) × (status_of y.0 ≡ some status))

of_Ends :
    {W : Type 0} {world : W} {y : Exchange W × Ending} {sent : Option ℕ} (code : ℕ)
    → sent ≡ some code
    → Ends world sent code y
    → IsLogged y
of_Ends code s e =
    (e.returns, e.status_logged ∙ sym s ∙ sym e.status_sent, (code, e.status_sent ∙ s))

Match-cases :
    {W : Type 0} (m : Match W)
    → ((route : Route) × (m ≡ found route)) ⊎ ((own : Handler W) × (m ≡ unmatched own))
Match-cases (found route) = inl (route, refl)
Match-cases (unmatched own) = inr (own, refl)

not_options : (route : Route) → ¬ (codes "OPTIONS" ≡ method_of route)
unfolding method_of
not_options health h = cc h
not_options (analyze domain) h = cc h
not_options batch_analysis h = cc h
not_options root h = cc h

pub no_panic : {p : Text} → ¬ (returned ≡ panicked p)
no_panic h = cc h

module _ {L S : Type 0} (service : AnalysisService S) (decode : Text → Result BatchAnalysisRequest)
    (encode : Body → Option GoError) (limiter : RateLimiter L) (r : Incoming) (l : L) (w : S) where
  Outcome-IsLogged :
      (route : Route) {y : Exchange (L × S) × Ending}
      → Outcome limiter (handler_of service decode encode route) r none (fresh (l, w)) y
      → IsLogged y
  Outcome-IsLogged route (limited h e) = of_Ends 429 refl e
  Outcome-IsLogged route (preflight h o e) = of_Ends 200 refl e
  Outcome-IsLogged route (rescued p h o k e) =
      absurd (no_panic (sym (handler_of-returned service decode encode route r _ _) ∙ k))
  Outcome-IsLogged route (passed h o k e) =
      of_Ends _ (handler_of-SentAsSeen service decode encode route r _ w) e

  -- On a connection that nothing was sent on, the server answers every request of a route, in the
  -- end, with a status, and the last entry of the log names the status that was sent.
  pub serve-IsLogged :
      (mux : Text → Text → Match (L × S)) (route : Route)
      → mux r.method r.path ≡ found route
      → IsLogged (serve service decode encode mux limiter r none (fresh (l, w)))
  unfolding serve on_match
  serve-IsLogged mux route h =
      rw h (Outcome-IsLogged route (chain-Outcome limiter _ r none (fresh (l, w))))

  -- A router that keeps to the methods of the routes passes a preflight request to none of them:
  -- its own handler answers, no middleware is called, and with them neither the limiter nor the one
  -- that sets the headers of CORS.
  pub serve_preflight :
      (mux : Text → Text → Match (L × S))
      → ((method path : Text) (route : Route)
          → mux method path ≡ found route
          → method ≡ method_of route)
      → r.method ≡ codes "OPTIONS"
      → (own : Handler (L × S)) × (mux r.method r.path ≡ unmatched own)
        × (serve service decode encode mux limiter r none (fresh (l, w))
            ≡ own r none (fresh (l, w)))
  unfolding serve on_match
  serve_preflight mux keeps o = elim (Match-cases (mux r.method r.path)) [
    | inl (route, e) ↦ absurd (not_options route (sym o ∙ keeps r.method r.path route e))
    | inr (own, e) ↦ (own, e, rw e refl)
  ]
