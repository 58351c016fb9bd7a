-- ===== src/Http/Middleware.antt =====
-- internal/http/middlewares.go: the middlewares, and the chain that `NewServer` of
-- internal/http/router.go makes of them. A handler is a function of the request, its context and the
-- state; it returns or panics. The limiter is an interface.
pub mod Ends
pub mod Outcomes
use Prim.Native.String.{String}
use perion_assignment.Common.{
  ℕ, ◌+◌, ◌-◌, ◌/◌, Bool, true, false, Option, none, some, List, [], ◌∷◌, ◌++◌, if◌then◌else◌, ltb,
  length, take,
}
use perion_assignment.Text.{Text, codes, text_eq}
use perion_assignment.Models.Errors.{GoError, plain, rate_limit_exceeded}
use perion_assignment.Models.Log.{LogCall, LogEvent, LogEntry, medium, high, log_info, log_error}
use perion_assignment.Logger.{Context, with_log_event, get_log_event, new_request_log_event}
use perion_assignment.Http.ClientIp.{get_client_ip}
use perion_assignment.Http.Writer.{Chunk, literal, ResponseWriter, set_header, write_header, write}

-- The metadata of the middlewares' log calls; the handlers' is left out.
pub data Metadata : Type 0 where
  no_metadata : Metadata
  started : (method path query user_agent client_ip body : Text) → Metadata
  completed :
      (method path : Text)
      → (status_code duration_ms : ℕ) → (user_agent client_ip : Text) → Metadata
  refused : (path method : Text) → Metadata
  recovered : (panic path method : Text) → Metadata

-- A log call with the event of its context, as the logger stores it.
pub record Logged : Type 0 where
  pub event : LogEvent
  pub call : LogCall
  pub metadata : Metadata

-- The readings of the clock that the limiter makes.
pub record Times : Type 0 where
  pub global : ℕ
  pub created : ℕ
  pub per_ip : ℕ

-- A request as it comes in, an absent header being empty and the body being its bytes, with the
-- identifiers that are drawn and the readings of the clock on its way.
pub record Incoming : Type 0 where
  pub method : Text
  pub path : Text
  pub query : Text
  pub user_agent : Text
  pub forwarded_for : Text
  pub real_ip : Text
  pub remote_addr : Text
  pub body : Text
  pub process_id : Text
  pub spare_id : Text
  pub start : ℕ
  pub now : ℕ
  pub times : Times
  pub finish : ℕ

-- `getClientIP`.
abbrev pub client_of : Incoming → Text
client_of r = get_client_ip r.forwarded_for r.real_ip r.remote_addr

-- The state that a handler works on.
pub record Exchange (W : Type 0) : Type 0 where
  pub world : W
  pub writer : ResponseWriter
  pub log : List Logged

pub data Ending : Type 0 where
  returned : Ending
  panicked : Text → Ending

abbrev pub Handler : Type 0 → Type 0
Handler W = Incoming → Context → Exchange W → Exchange W × Ending

-- The event of the request's context.
abbrev pub event_of : Incoming → Context → LogEvent
event_of r ctx = get_log_event ctx r.spare_id r.now

-- A call of the logger.
abbrev pub logs : {W : Type 0} → LogEvent → LogCall → Metadata → Exchange W → Exchange W
logs event call metadata x = record x {
  log = x.log ++ record { event = event; call = call; metadata = metadata } ∷ [];
}

-- What is logged of the bytes of the body.
unfoldable pub logged_body : Text → Text
logged_body body =
    if ltb 1000 (length body) then take 1000 body ++ codes "... (truncated)" else body

-- The end of `loggingMiddleware`, which is not reached when the handler panics.
unfoldable pub log_completion :
    {W : Type 0} → Incoming → LogEvent → Exchange W × Ending → Exchange W × Ending
log_completion r event (x, panicked p) = (x, panicked p)
log_completion r event (x, returned) = (
  logs event (log_info (codes "http_request_complete") (codes "HTTP request processed"))
      (completed r.method r.path x.writer.status_code ((r.finish - event.start_time) / 1000000)
        r.user_agent (client_of r))
      x,
  returned,
)

-- `loggingMiddleware`.
unfoldable pub logging : {W : Type 0} → Handler W → Handler W
unfolding log_completion with_log_event
logging next r ctx x =
    let event = new_request_log_event (client_of r) r.process_id r.start in
    let begun =
      logs event (log_info (codes "http_request_start") (codes "HTTP request received"))
        (started r.method r.path r.query r.user_agent (client_of r) (logged_body r.body)) x in
    log_completion r event (
      next r (with_log_event ctx event)
        (record begun { writer = record { writer = x.writer.writer; status_code = 200 } }))

-- `corsMiddleware`.
unfoldable pub cors_headers : ResponseWriter → ResponseWriter
unfolding set_header
cors_headers w =
    set_header (codes "Access-Control-Allow-Headers") (codes "Content-Type, Authorization") (
      set_header (codes "Access-Control-Allow-Methods") (codes "GET, POST, OPTIONS")
        (set_header (codes "Access-Control-Allow-Origin") (codes "*") w))

unfoldable pub cors : {W : Type 0} → Handler W → Handler W
unfolding cors_headers write_header
cors next r ctx x =
    let x' = record x { writer = cors_headers x.writer } in
    if text_eq r.method (codes "OPTIONS")
    then (record x' { writer = write_header 200 x'.writer }, returned)
    else next r ctx x'

-- A response of a middleware: its headers, a status and a text.
unfoldable pub answer_with : Text → ℕ → Text → ResponseWriter → ResponseWriter
unfolding set_header write_header write
answer_with process_id status body w = write (literal body) (
    write_header status (
      set_header (codes "X-Request-ID") process_id
        (set_header (codes "Content-Type") (codes "application/json") w)))

-- The deferred function of `recoveryMiddleware`.
unfoldable pub recover :
    {W : Type 0} → Incoming → Context → Exchange W × Ending → Exchange W × Ending
unfolding answer_with
recover r ctx (x, returned) = (x, returned)
recover r ctx (x, panicked p) =
    let event = event_of r ctx in
    let x' =
      logs event
        (log_error (codes "panic_recovery") [] (codes "Panic recovered in HTTP handler")
          (plain (codes "panic: " ++ p)) high)
        (recovered p r.path r.method) x in
    (
      record x' {
        writer =
            answer_with event.process_id 500
              (codes
                "{\"error\":\"internal server error\",\"message\":\"An unexpected error occurred\"}")
              x'.writer;
      },
      returned,
    )

-- `recoveryMiddleware`.
unfoldable pub recovery : {W : Type 0} → Handler W → Handler W
unfolding recover
recovery next r ctx x = recover r ctx (next r ctx x)

-- `ratelimit.Service`, as the middleware calls it.
pub record RateLimiter (L : Type 0) : Type 0 where
  pub allow_request : Times → Text → L → L × Bool

-- A handler that leaves the limiter alone, on the state with the limiter.
abbrev pub beside : {L W : Type 0} → L → Exchange W × Ending → Exchange (L × W) × Ending
beside limiter (x, e) = (record { world = (limiter, x.world); writer = x.writer; log = x.log }, e)

abbrev pub without : {L W : Type 0} → Exchange (L × W) → Exchange W
without x = record { world = x.world.1; writer = x.writer; log = x.log }

module _ {L W : Type 0} (limiter : RateLimiter L) (next : Handler W) where
  -- `rateLimitingMiddleware`, from the limiter's answer on.
  unfoldable pub on_limit :
      Incoming → Context → L × Bool → Exchange (L × W) → Exchange (L × W) × Ending
  unfolding set_header write_header write
  on_limit r ctx (l, true) x = beside l (next r ctx (without x))
  on_limit r ctx (l, false) x =
      let event = event_of r ctx in
      let x' =
        logs event
          (log_error (codes "rate_limited") [] (codes "Rate limit exceeded") rate_limit_exceeded
            medium)
          (refused r.path r.method) x in
      (
        record x' {
          world = (l, x.world.1);
          writer =
              write
                (literal (
                  codes
                    "{\"error\":\"rate limit exceeded\",\"message\":\"Please try again later\"}"))
                (write_header 429 (
                  set_header (codes "X-RateLimit-Retry-After") (codes "1") (
                    set_header (codes "X-Request-ID") event.process_id
                      (set_header (codes "Content-Type") (codes "application/json") x'.writer))));
        },
        returned,
      )

  -- `rateLimitingMiddleware`.
  unfoldable pub rate_limiting : Handler (L × W)
  unfolding on_limit
  rate_limiting r ctx x =
      on_limit r ctx (limiter.allow_request r.times (event_of r ctx).client_ip x.world.0) x

-- The middlewares in the order in which `NewServer` registers them, the first one outermost.
unfoldable pub chain : {L W : Type 0} → RateLimiter L → Handler W → Handler (L × W)
unfolding logging rate_limiting cors recovery
chain limiter next = logging (rate_limiting limiter (cors (recovery next)))
