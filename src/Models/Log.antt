-- ===== src/Models/Log.antt =====
-- The log records of internal/models/models.go, and the calls of the logger's interface
-- (internal/logger/interface.go). The metadata of a call is left out.
use perion_assignment.Common.{ℕ, Option, none, some, []}
use perion_assignment.Text.{Text}
use perion_assignment.Models.Errors.{GoError}

pub data LogSeverity : Type 0 where
  low medium high : LogSeverity

-- A call of `LogInfo` or `LogSuccess`, which have no severity and no error, or of `LogError`.
pub record LogCall : Type 0 where
  pub severity : Option LogSeverity
  pub operation : Text
  pub target_name : Text
  pub message : Text
  pub error : Option GoError

abbrev pub log_info : (operation message : Text) → LogCall
log_info operation message = record {
  severity = none;
  operation = operation;
  target_name = [];
  message = message;
  error = none;
}

abbrev pub log_success : (operation target_name message : Text) → LogCall
log_success operation target_name message = record {
  severity = none;
  operation = operation;
  target_name = target_name;
  message = message;
  error = none;
}

abbrev pub log_error : (operation target_name message : Text) → GoError → LogSeverity → LogCall
log_error operation target_name message error severity = record {
  severity = some severity;
  operation = operation;
  target_name = target_name;
  message = message;
  error = some error;
}

-- `ProcessType`.
pub data ProcessType : Type 0 where
  request internal : ProcessType

-- A context for log calls; a time is a number of nanoseconds.
pub record LogEvent : Type 0 where
  pub process_id : Text
  pub process_type : ProcessType
  pub start_time : ℕ
  pub client_ip : Text

-- A structured log entry, without its metadata. An empty severity is none.
pub record LogEntry : Type 0 where
  pub id : Text
  pub timestamp : ℕ
  pub severity : Option LogSeverity
  pub message : Text
  pub operation : Text
  pub target_name : Text
  pub process_id : Text
  pub process_type : ProcessType
  pub client_ip : Text
  pub error : Text
