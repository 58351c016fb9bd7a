-- ===== src/Http/Middleware/Ends.antt =====
-- The statuses that an exchange of internal/http/middlewares.go sends and logs, and the states in which
-- the middlewares call the next handler.
use perion_assignment.Common.{ℕ, ◌≡◌, refl, Option, none, some, List, [], ◌∷◌, ◌++◌}
use perion_assignment.Text.{Text, codes}
use perion_assignment.Dict.{Dict}
use perion_assignment.Logger.{new_request_log_event}
use perion_assignment.Models.Log.{LogEvent, log_info}
use perion_assignment.Http.Writer.{first_sent, Sent}
use perion_assignment.Http.Middleware.{
  Metadata, started, completed, Logged, Incoming, client_of, Exchange, Ending, returned, logs,
  logged_body, cors_headers,
}

-- The status that was sent.
abbrev pub status_in : Option Sent → Option ℕ
status_in none = none
status_in (some s) = some s.status

abbrev pub status_of : {W : Type 0} → Exchange W → Option ℕ
status_of x = status_in x.writer.writer.sent

-- The status that is sent already, or else the given one.
abbrev pub status_or : ℕ → Option Sent → ℕ
status_or code none = code
status_or code (some s) = s.status

pub first_sent-status :
    (code : ℕ) (headers : Dict Text) (sent : Option Sent)
    → (first_sent code headers sent).status ≡ status_or code sent
first_sent-status code headers none = refl
first_sent-status code headers (some s) = refl

-- The status that the last entry of the log says that the request was completed with.
abbrev pub completed_in : Metadata → Option ℕ
completed_in (completed method path status_code duration user_agent client_ip) = some status_code
completed_in _ = none

unfoldable pub last_completed : List Logged → Option ℕ
last_completed [] = none
last_completed (e ∷ []) = completed_in e.metadata
last_completed (e ∷ f ∷ log) = last_completed (f ∷ log)

pub last_completed-append :
    (log : List Logged) (e : Logged) → last_completed (log ++ e ∷ []) ≡ completed_in e.metadata
unfolding last_completed
last_completed-append [] e = refl
last_completed-append (d ∷ []) e = refl
last_completed-append (d ∷ c ∷ log) e = last_completed-append (c ∷ log) e

-- The event of a request, and the state in which the logging middleware calls the next handler.
unfoldable pub event_for : Incoming → LogEvent
event_for r = new_request_log_event (client_of r) r.process_id r.start

unfoldable pub begun : {W : Type 0} → Incoming → Exchange W → Exchange W
begun r x =
    record (logs (event_for r)
      (log_info (codes "http_request_start") (codes "HTTP request received"))
      (started r.method r.path r.query r.user_agent (client_of r) (logged_body r.body)) x) {
        writer = record { writer = x.writer.writer; status_code = 200 };
      }

-- The state in which the handler behind all middlewares is called.
unfoldable pub handed : {W : Type 0} → Incoming → Exchange W → Exchange W
handed r x = record (begun r x) { writer = cors_headers (begun r x).writer }

-- How the chain ends: it returns, with a last entry that names the status that its writer saw.
pub record Ends {W : Type 0} (world : W) (status : Option ℕ) (logged : ℕ) (y : Exchange W × Ending)
    : Type 0 where
  pub returns : y.1 ≡ returned
  pub world_after : y.0.world ≡ world
  pub status_sent : status_of y.0 ≡ status
  pub status_logged : last_completed y.0.log ≡ some logged
