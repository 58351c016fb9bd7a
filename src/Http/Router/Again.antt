-- ===== src/Http/Router/Again.antt =====
-- The analysis of a domain through the whole server: the router, the middlewares, the handler, the
-- service and the cache in memory.
mod Examples
use perion_assignment.Common.{
  ℕ, ◌+◌, ◌≤◌, ◌≡◌, refl, ◌∙◌, ap, sym, Bool, true, false, Option, none, some, List, [], ◌∷◌, ℤ,
  not_positive, magnitude, arith,
}
use perion_assignment.Text.{Text, codes, text_eq}
use perion_assignment.Dict.{Dict}
use perion_assignment.Models.{
  AdsTxtEntry, DomainAnalysis, BatchAnalysisRequest, BatchAnalysisResponse,
}
use perion_assignment.Models.Errors.{GoError, Result}
use perion_assignment.Cache.{MemoryCache}
use perion_assignment.Cache.DomainCache.{get_analysis}
use perion_assignment.Cache.DomainCache.Laws.{over_memory}
use perion_assignment.Analysis.Service.{World, Clock}
use perion_assignment.Analysis.Service.Outcomes.{Fails, memory_parts}
use perion_assignment.Http.{Body, Response, Served, AnalysisService, analysis_response}
use perion_assignment.Http.Composed.{Answered, service_of, asks_for, asks_for-again}
use perion_assignment.Http.Writer.{
  encoded_body, ResponseWriter, set_header, send_header, write_header, write, write_encoded,
  respond,
}
use perion_assignment.Http.Middleware.{
  Incoming, client_of, Exchange, Ending, returned, RateLimiter, cors_headers,
}
use perion_assignment.Http.Middleware.Ends.{status_in, status_of, begun, handed, event_for, Ends}
use perion_assignment.Http.Middleware.Outcomes.{
  limit, run, Outcome, limited, preflight, rescued, passed, chain-Outcome, passed_writer,
}
use perion_assignment.Logger.{get_log_event}
use perion_assignment.Http.Router.Statuses.{handler_of-returned, no_panic}
use perion_assignment.Http.Router.{
  analyze, Match, found, served, handler_of, request_of, on_match, serve, fresh,
}

-- A response with a status and one encoded body.
abbrev pub Answers : ResponseWriter → ℕ → Body → Type 0
Answers w status body =
    (status_in w.writer.sent ≡ some status) × (w.writer.body ≡ encoded_body body ∷ [])

some-inj : {a b : ℕ} → Path (Option ℕ) (some a) (some b) → a ≡ b
some-inj h = cc

not_429 : ¬ Path (Option ℕ) (some 429) (some 200)
not_429 h = omega (arith, some-inj h)

not_options : {method : Text} → method ≡ codes "GET" → text_eq method (codes "OPTIONS") ≡ false
unfolding text_eq
not_options h = rw h refl

sent_as :
    {S : Type 0} (served : Served S) {d : DomainAnalysis} (w : ResponseWriter)
    → Answers w served.response.status served.response.body
    → Answered served d
    → Answers w 200 (analysis_response d)
sent_as served w (sent, written) (status, body) =
    (sent ∙ ap some status, written ∙ ap (λ b. encoded_body b ∷ []) body)

module _ (encode : Body → Option GoError) (encodes : (body : Body) → encode body ≡ none) where
  respond-Answers :
      (response : Response) (headers : Dict Text) (code : ℕ)
      → Answers
          (respond encode response (record {
            writer = record { headers = headers; sent = none; body = [] };
            status_code = code;
          }))
          response.status
          response.body
  unfolding respond write send_header set_header write_header
  respond-Answers response headers code = rw (encodes response.body) (refl, refl)

module _ {L : Type 0} (parse : Text → Result (List AdsTxtEntry)) (order : Dict ℕ → List (Text × ℕ))
    (unmarshal : Text → Result DomainAnalysis) (ttl : ℤ)
    (batches : List Text → World MemoryCache → World MemoryCache × Result BatchAnalysisResponse)
    (decode : Text → Result BatchAnalysisRequest) (encode : Body → Option GoError)
    (encodes : (body : Body) → encode body ≡ none)
    (mux : Text → Text → Match (L × World MemoryCache)) (limiter : RateLimiter L) where
  -- The server, with the fetcher and the clock of the service at the request.
  abbrev pub server :
      (fetch : Text → Result Text)
      → Clock
      → Incoming
      → L × World MemoryCache
      → Exchange (L × World MemoryCache) × Ending
  server fetch clock r world =
      serve (service_of (memory_parts parse fetch order unmarshal ttl) batches clock) decode encode
        mux limiter r none (fresh world)

  -- What the handler answers.
  abbrev handled :
      (fetch : Text → Result Text)
      → Clock
      → Incoming
      → Text
      → World MemoryCache
      → Served (World MemoryCache)
  handled fetch clock r domain w =
      asks_for parse order unmarshal ttl batches fetch clock
        (request_of (service_of (memory_parts parse fetch order unmarshal ttl) batches clock) decode
          encode r (event_for r))
        domain w

  module _ (fetch : Text → Result Text) (clock : Clock) (r : Incoming) (domain : Text) (l : L)
      (w : World MemoryCache) (routed : mux r.method r.path ≡ found (analyze domain)) where
    abbrev service : AnalysisService (World MemoryCache)
    service = service_of (memory_parts parse fetch order unmarshal ttl) batches clock

    abbrev admitted : L × Bool
    admitted = limiter.allow_request r.times (client_of r) l

    abbrev result : Served (World MemoryCache)
    result = handled fetch clock r domain w

    run-Answers :
        Answers
          (run limiter
            (handler_of service decode encode (analyze domain))
            r
            none
            (fresh (l, w))).0.writer
          result.response.status
          result.response.body
    unfolding handler_of served handed begun cors_headers set_header get_log_event
    run-Answers = respond-Answers encode encodes result.response _ 200

    -- A request that is admitted is answered as the handler answers it.
    passes :
        admitted.1 ≡ true
        → text_eq r.method (codes "OPTIONS") ≡ false
        → Answers (server fetch clock r (l, w)).0.writer result.response.status result.response.body
    unfolding serve on_match
    passes admits o =
        rw
          (
            routed,
            passed_writer limiter (handler_of service decode encode (analyze domain)) r none
                (fresh (l, w)) admits o
                (handler_of-returned service decode encode (analyze domain) r _ _),
          )
          run-Answers

    -- A request that is answered with 200, and not as a preflight request, was admitted.
    was_admitted :
        text_eq r.method (codes "OPTIONS") ≡ false
        → status_of (server fetch clock r (l, w)).0 ≡ some 200
        → (admitted.1 ≡ true)
          × ((server fetch clock r (l, w)).0.world ≡ (admitted.0, result.service))
    unfolding serve on_match handler_of served get_log_event handed begun cors_headers set_header
    was_admitted o done = rw routed (
        go _ (rw routed at done) (
          chain-Outcome limiter (handler_of service decode encode (analyze domain)) r none
            (fresh (l, w))))
      where
        go :
            (y : Exchange (L × World MemoryCache) × Ending)
            → status_of y.0 ≡ some 200
            → Outcome limiter
                (handler_of service decode encode (analyze domain))
                r
                none
                (fresh (l, w))
                y
            → (admitted.1 ≡ true) × (y.0.world ≡ (admitted.0, result.service))
        go y done (limited h e) = absurd (not_429 (sym e.status_sent ∙ done))
        go y done (preflight h p e) = absurd (cc (p, o))
        go y done (rescued p h q k e) = absurd (
            no_panic (
              sym (
                handler_of-returned service decode encode (analyze domain) r (some (event_for r))
                  (handed r (fresh w)))
              ∙ k))
        go y done (passed h q k e) = (h, e.world_after)

  -- Two requests for one domain through the whole server, with a positive time to live: if the first
  -- one missed the cache and was answered with 200, and the limiter admits the second one, which the
  -- cache is asked for before the time to live is over, then the second one is answered with 200
  -- too, whatever its fetcher would do, and with the analysis of the first one, which said that it
  -- was not cached and now says that it is. The encoder is taken to encode every body.
  pub server-again :
      (fetch fetch' : Text → Result Text) (first second : Clock) (r r' : Incoming) (c : ℕ)
      (rest : Text) (l : L) (w : World MemoryCache)
      → not_positive ttl ≡ false
      → mux r.method r.path ≡ found (analyze (c ∷ rest))
      → mux r'.method r'.path ≡ found (analyze (c ∷ rest))
      → r.method ≡ codes "GET"
      → r'.method ≡ codes "GET"
      → Fails (get_analysis (over_memory unmarshal ttl) first.asked (c ∷ rest) w.cache w.heap)
      → status_of (server fetch first r (l, w)).0 ≡ some 200
      → second.asked ≤ first.stored + magnitude ttl
      → (limiter.allow_request r'.times (client_of r') (server fetch first r (l, w)).0.world.0).1
        ≡ true
      → (let one = (server fetch first r (l, w)).0 in
          let two = (server fetch' second r' one.world).0 in
          (d : DomainAnalysis) × (d.cached ≡ false)
          × Answers one.writer 200 (analysis_response d)
          × Answers two.writer 200 (analysis_response (record d { cached = true })))
  server-again fetch fetch' first second r r' c rest l w positive here there get get' miss done
        in_time admits' =
      let world = (server fetch first r (l, w)).0.world in
      let o = not_options get in
      let (admits, after) = was_admitted fetch first r (c ∷ rest) l w here o done in
      let one = passes fetch first r (c ∷ rest) l w here admits o in
      let status : (result fetch first r (c ∷ rest) l w here).response.status ≡ 200 =
        some-inj (sym one.0 ∙ done) in
      let (d, unmarked, one_answers, two_answers) =
        asks_for-again parse order unmarshal ttl batches fetch fetch' first second
          (request_of (service fetch first r (c ∷ rest) l w here) decode encode r (event_for r))
          (request_of (service fetch' second r' (c ∷ rest) l w there) decode encode r'
            (event_for r'))
          c rest w positive miss status in_time in
      (
        d,
        unmarked,
        sent_as (result fetch first r (c ∷ rest) l w here) (server fetch first r (l, w)).0.writer
            one one_answers,
        sent_as (result fetch' second r' (c ∷ rest) world.0 world.1 there)
            (server fetch' second r' world).0.writer
            (passes fetch' second r' (c ∷ rest) world.0 world.1 there admits' (not_options get'))
            (rw (ap (λ x. x.1) after) two_answers),
      )
