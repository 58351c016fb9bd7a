-- ===== src/Http/Middleware/Outcomes.antt =====
-- What the chain of middlewares of internal/http makes of a request, whatever handler it stands
-- before.
use perion_assignment.Common.{
  ℕ, ◌≡◌, refl, ◌∙◌, ap, Bool, true, false, Option, some, Bool-cases, ◌⊎◌, inl, inr,
}
use perion_assignment.Text.{Text, codes, text_eq}
use perion_assignment.Logger.{
  Context, with_log_event, get_log_event, new_log_event, new_request_log_event,
}
use perion_assignment.Http.Writer.{first_sent, set_header, send_header, write_header, write, Sent}
use perion_assignment.Http.Middleware.{
  Incoming, client_of, Exchange, Ending, returned, panicked, Handler, log_completion, logging,
  cors_headers, cors, answer_with, recover, recovery, RateLimiter, beside, without, on_limit,
  rate_limiting, chain,
}
use perion_assignment.Http.Middleware.Ends.{
  status_of, status_or, first_sent-status, last_completed-append, event_for, begun, handed, Ends,
}

module _ {L W : Type 0} (limiter : RateLimiter L) (next : Handler W) (r : Incoming) (ctx : Context)
    (x : Exchange (L × W)) where
  -- The limiter's answer, and what the handler leaves.
  abbrev pub limit : L × Bool
  limit = limiter.allow_request r.times (client_of r) x.world.0

  abbrev pub run : Exchange W × Ending
  run = next r (some (event_for r)) (handed r (without x))

  -- The four ways of a request: refused by the limiter, answered as a preflight request, answered
  -- after a panic, and as its handler answers it.
  pub data Outcome (y : Exchange (L × W) × Ending) : Type 0 where
    limited :
        limit.1 ≡ false
        → Ends (limit.0, x.world.1) (some (status_or 429 x.writer.writer.sent)) 429 y
        → Outcome y
    preflight :
        limit.1 ≡ true
        → text_eq r.method (codes "OPTIONS") ≡ true
        → Ends (limit.0, x.world.1) (some (status_or 200 x.writer.writer.sent)) 200 y
        → Outcome y
    rescued :
        (p : Text)
        → limit.1 ≡ true
        → text_eq r.method (codes "OPTIONS") ≡ false
        → run.1 ≡ panicked p
        → Ends (limit.0, run.0.world) (some (status_or 500 run.0.writer.writer.sent)) 500 y
        → Outcome y
    passed :
        limit.1 ≡ true
        → text_eq r.method (codes "OPTIONS") ≡ false
        → run.1 ≡ returned
        → Ends (limit.0, run.0.world) (status_of run.0) run.0.writer.status_code y
        → Outcome y

  abbrev inner : Handler (L × W)
  inner = rate_limiting limiter (cors (recovery next))

  -- The logging middleware around what returns.
  logging-Ends :
      (z : Exchange (L × W))
      → inner r (some (event_for r)) (begun r x) ≡ (z, returned)
      → Ends z.world (status_of z) z.writer.status_code (chain limiter next r ctx x)
  unfolding chain logging with_log_event log_completion event_for begun
  logging-Ends z e = rw e (record {
    returns = refl;
    world_after = refl;
    status_sent = refl;
    status_logged = last_completed-append z.log _;
  })

  logging-Ends-as :
      (z : Exchange (L × W)) (world : L × W) (code : ℕ)
      → inner r (some (event_for r)) (begun r x) ≡ (z, returned)
      → z.world ≡ world
      → z.writer.status_code ≡ code
      → (sent : Option Sent)
      → status_of z ≡ some (first_sent code z.writer.writer.headers sent).status
      → Ends world (some (status_or code sent)) code (chain limiter next r ctx x)
  logging-Ends-as z world code e w c sent s =
      rw (← w, ← first_sent-status code z.writer.writer.headers sent, ← s, ← c) (logging-Ends z e)

  -- The answer of the limiting middleware, once the limiter's answer is known.
  abbrev on_answer : Bool → Exchange (L × W) × Ending
  on_answer allowed =
      on_limit limiter (cors (recovery next)) r (some (event_for r)) (limit.0, allowed) (begun r x)

  inner_lem :
      (allowed : Bool)
      → limit.1 ≡ allowed
      → inner r (some (event_for r)) (begun r x) ≡ on_answer allowed
  unfolding rate_limiting event_for get_log_event begun new_request_log_event new_log_event
  inner_lem allowed h = ap on_answer h

  chain-limited : limit.1 ≡ false → Outcome (chain limiter next r ctx x)
  unfolding on_limit write write_header set_header send_header begun
  chain-limited h = limited h (
      logging-Ends-as (on_answer false).0 (limit.0, x.world.1) 429 (inner_lem false h) refl refl
        x.writer.writer.sent refl)

  -- The layers behind the limiter.
  behind :
      {z : Exchange W × Ending}
      → limit.1 ≡ true
      → cors (recovery next) r (some (event_for r)) (without (begun r x)) ≡ z
      → inner r (some (event_for r)) (begun r x) ≡ beside limit.0 z
  unfolding on_limit
  behind h e = inner_lem true h ∙ ap (beside limit.0) e

  preflight_run :
      text_eq r.method (codes "OPTIONS") ≡ true
      → cors (recovery next) r (some (event_for r)) (without (begun r x)) ≡ (
        record (without (begun r x)) {
          writer = write_header 200 (cors_headers (begun r x).writer);
        },
        returned,
      )
  unfolding cors
  preflight_run o = rw o refl

  chain-preflight :
      limit.1 ≡ true
      → text_eq r.method (codes "OPTIONS") ≡ true
      → Outcome (chain limiter next r ctx x)
  unfolding cors write_header set_header send_header begun cors_headers
  chain-preflight h o = preflight h o (
      logging-Ends-as _ (limit.0, x.world.1) 200 (behind h (preflight_run o)) refl refl
        x.writer.writer.sent refl)

  recovered_run :
      text_eq r.method (codes "OPTIONS") ≡ false
      → cors (recovery next) r (some (event_for r)) (without (begun r x))
        ≡ recover r (some (event_for r)) run
  unfolding cors recovery handed begun
  recovered_run o = rw o refl

  chain-rescued :
      (p : Text)
      → limit.1 ≡ true
      → text_eq r.method (codes "OPTIONS") ≡ false
      → run.1 ≡ panicked p
      → Outcome (chain limiter next r ctx x)
  unfolding recover answer_with write write_header set_header send_header
  chain-rescued p h o e = rescued p h o e (
      logging-Ends-as _ (limit.0, run.0.world) 500
        (behind h (recovered_run o ∙ ap (λ e. recover r (some (event_for r)) (run.0, e)) e)) refl
        refl run.0.writer.writer.sent refl)

  chain-passed :
      limit.1 ≡ true
      → text_eq r.method (codes "OPTIONS") ≡ false
      → run.1 ≡ returned
      → Outcome (chain limiter next r ctx x)
  unfolding recover
  chain-passed h o e = passed h o e (
      logging-Ends _
        (behind h (recovered_run o ∙ ap (λ e. recover r (some (event_for r)) (run.0, e)) e)))

  -- The response of a handler that is reached, and returns, is the response of the chain.
  pub passed_writer :
      limit.1 ≡ true
      → text_eq r.method (codes "OPTIONS") ≡ false
      → run.1 ≡ returned
      → (chain limiter next r ctx x).0.writer ≡ run.0.writer
  unfolding chain logging with_log_event log_completion event_for begun recover
  passed_writer h o e =
      rw (behind h (recovered_run o ∙ ap (λ e. recover r (some (event_for r)) (run.0, e)) e)) refl

  Ending-cases : (e : Ending) → ((p : Text) × (e ≡ panicked p)) ⊎ (e ≡ returned)
  Ending-cases returned = inr refl
  Ending-cases (panicked p) = inl (p, refl)

  -- Whatever the handler does, the chain returns in one of four ways: a request that the limiter
  -- refuses leaves the handler's state alone and is answered with 429; one of the method OPTIONS is
  -- answered with 200; after a panic of the handler, the answer is 500; and otherwise it is the
  -- handler's own. A status that was sent before stays. The limiter's state is its own answer's, and
  -- the last entry of the log names 429, 200, 500, or the status that the wrapped writer saw.
  pub chain-Outcome : Outcome (chain limiter next r ctx x)
  chain-Outcome = elim (Bool-cases limit.1) [
    | inr refuses ↦ chain-limited refuses
    | inl admits ↦ elim (Bool-cases (text_eq r.method (codes "OPTIONS"))) [
      | inl o ↦ chain-preflight admits o
      | inr o ↦ elim (Ending-cases run.1) [
        | inl (p, e) ↦ chain-rescued p admits o e
        | inr e ↦ chain-passed admits o e
      ]
    ]
  ]
