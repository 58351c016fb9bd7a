-- ===== src/Logger.antt =====
-- internal/logger: the log events of contexts (context.go), the entries of log calls (logger.go) and
-- the rows that they become (database.go). The identifiers of package uuid, the marshalled metadata
-- and the database are parameters.
pub mod Rows
pub mod Connection
pub mod Pending
mod Examples
use Prim.Native.String.{String}
use perion_assignment.Common.{ℕ, Bool, Option, none, some, List, [], ◌∷◌, ◌++◌}
use perion_assignment.Text.{Text, codes}
use perion_assignment.Models.Errors.{GoError, wrapped, error_text, Result, ok, err}
use perion_assignment.Models.Log.{
  LogSeverity, low, medium, high, LogCall, ProcessType, request, internal, LogEvent, LogEntry,
}

-- `NewLogEvent`, with the identifier that it draws and the time that it reads.
unfoldable pub new_log_event : ProcessType → (client_ip id : Text) → (now : ℕ) → LogEvent
new_log_event process_type client_ip id now = record {
  process_id = id;
  process_type = process_type;
  start_time = now;
  client_ip = client_ip;
}

-- `NewRequestLogEvent` and `NewInternalLogEvent`.
unfoldable pub new_request_log_event : (client_ip id : Text) → (now : ℕ) → LogEvent
unfolding new_log_event
new_request_log_event = new_log_event request

unfoldable pub new_internal_log_event : (id : Text) → (now : ℕ) → LogEvent
unfolding new_log_event
new_internal_log_event = new_log_event internal []

-- The part of a context that the package reads: the value under its key.
abbrev pub Context : Type 0
Context = Option LogEvent

-- `WithLogEvent`.
unfoldable pub with_log_event : Context → LogEvent → Context
with_log_event ctx event = some event

-- `GetLogEvent`, with what it draws and reads where there is no event.
unfoldable pub get_log_event : Context → (id : Text) → (now : ℕ) → LogEvent
unfolding new_log_event
get_log_event (some event) id now = event
get_log_event none id now = new_log_event internal [] id now

-- The text of an error that may be nil.
abbrev pub text_of : Option GoError → Text
text_of none = []
text_of (some e) = error_text e

-- The entry that `logEntry` makes: `event_id` is the identifier of an event that it may have to make.
unfoldable pub log_entry : Context → (event_id id : Text) → (now : ℕ) → LogCall → LogEntry
log_entry ctx event_id id now call =
    let event = get_log_event ctx event_id now in
    record {
      id = id;
      timestamp = now;
      severity = call.severity;
      message = call.message;
      operation = call.operation;
      target_name = call.target_name;
      process_id = event.process_id;
      process_type = event.process_type;
      client_ip = event.client_ip;
      error = text_of call.error;
    }

-- The arguments of the INSERT statement, `none` for NULL.
pub record Row : Type 0 where
  pub id : Text
  pub timestamp : ℕ
  pub severity : Option Text
  pub message : Text
  pub operation : Text
  pub target_name : Option Text
  pub process_id : Text
  pub process_type : Text
  pub client_ip : Option Text
  pub error_details : Option Text
  pub metadata : Option Text

-- `if v != "" { x = v }`.
abbrev pub present : Text → Option Text
present [] = none
present (c ∷ s) = some (c ∷ s)

-- The string constants of `LogSeverity` and `ProcessType`.
unfoldable pub severity_text : LogSeverity → Text
severity_text low = codes "low"
severity_text medium = codes "medium"
severity_text high = codes "high"

unfoldable pub process_text : ProcessType → Text
process_text request = codes "request"
process_text internal = codes "internal"

abbrev pub severity_column : Option LogSeverity → Option Text
severity_column none = none
severity_column (some s) = some (severity_text s)

unfoldable pub row_of : LogEntry → (metadata : Option Text) → Row
row_of entry metadata = record {
  id = entry.id;
  timestamp = entry.timestamp;
  severity = severity_column entry.severity;
  message = entry.message;
  operation = entry.operation;
  target_name = present entry.target_name;
  process_id = entry.process_id;
  process_type = process_text entry.process_type;
  client_ip = present entry.client_ip;
  error_details = present entry.error;
  metadata = metadata;
}

-- `s.pool.Exec`, with its error.
abbrev pub executed : Option GoError → Option GoError
executed none = none
executed (some e) =
    some (wrapped (codes "failed to insert log entry to supabase: " ++ error_text e) e)

-- `InsertLog`: no metadata, or what `json.Marshal` answers to it.
unfoldable pub insert_log :
    (exec : Row → Option GoError) → LogEntry → Option (Result Text) → Option GoError
insert_log exec entry none = executed (exec (row_of entry none))
insert_log exec entry (some (ok json)) = executed (exec (row_of entry (some json)))
insert_log exec entry (some (err e)) =
    some (wrapped (codes "failed to marshal metadata to JSON: " ++ error_text e) e)
