-- ===== src/Logger/Examples.antt =====
-- Runs of internal/logger, and the theorems on its rows at them, with a database that checks its
-- columns.
use perion_assignment.Common.{
  [], ◌∷◌, ℕ, ◌≤◌, ◌≡◌, ◌≢◌, refl, ◌↔◌, inl, inr, ◌⊎◌, Bool, true, false, ◌&&◌, ◌||◌, Option, none,
  some, leb, ◌==◌, all, length, arith,
}
use perion_assignment.Text.{Text, codes, text_eq, text_eq_iff}
use perion_assignment.Models.Errors.{GoError, plain, ok}
use perion_assignment.Models.Log.{LogEvent, LogCall, request, log_info}
use perion_assignment.Logger.{
  with_log_event, log_entry, Row, row_of, insert_log, severity_text, process_text, get_log_event,
  new_log_event, new_request_log_event,
}
use perion_assignment.Logger.Connection.{
  Pgx, new_supabase_connection, Way, new_supabase_connection-Way,
}
use perion_assignment.Logger.Rows.{IsNullOr, IsRow, Fits, row_of-IsRow, insert_log-lost}

-- What the runs unfold.
entries : Unit {0}
unfolding insert_log text_eq row_of log_entry get_log_event with_log_event severity_text
    process_text new_request_log_event new_log_event
entries = tt

abbrev is_inet : Text → Bool
is_inet s = all (λ c. (leb b'0' c && leb c b'9') || c == b'.') s

abbrev IsAny : Text → Type 0
IsAny s = Unit

abbrev IsInet : Text → Type 0
IsInet s = is_inet s ≡ true

-- A database that checks the columns.
abbrev null_or : (Text → Bool) → Option Text → Bool
null_or p none = true
null_or p (some s) = p s

abbrev is_severity : Text → Bool
is_severity s = text_eq s (codes "low") || text_eq s (codes "medium") || text_eq s (codes "high")

abbrev is_process : Text → Bool
is_process s = text_eq s (codes "request") || text_eq s (codes "internal")

abbrev origin : Row → Bool
origin row = is_process row.process_type && null_or is_inet row.client_ip

abbrev target_and_origin : Row → Bool
target_and_origin row = null_or (λ s. leb (length s) 255) row.target_name && origin row

abbrev all_but_severity : Row → Bool
all_but_severity row = leb (length row.operation) 100 && target_and_origin row

abbrev accepts : Row → Bool
accepts row = null_or is_severity row.severity && all_but_severity row

abbrev answer : Bool → Option GoError
answer true = none
answer false = some (plain (codes "check violated"))

abbrev exec : Row → Option GoError
exec row = answer (accepts row)

null_or-IsNullOr :
    {P : Text → Type 0} (p : Text → Bool) (s : Option Text)
    → ((t : Text) → p t ≡ true → P t)
    → null_or p s ≡ true
    → IsNullOr P s
null_or-IsNullOr p none h k = tt
null_or-IsNullOr p (some s) h k = h s k

text_of_test : (s t : Text) → text_eq s t ≡ true → s ≡ t
text_of_test s t h = (text_eq_iff s t).0 h

either : (a b : Bool) → (a || b) ≡ true → (a ≡ true) ⊎ (b ≡ true)
either true b h = inl refl
either false b h = inr h

both : (a b : Bool) → (a && b) ≡ true → (a ≡ true) × (b ≡ true)
both true b h = (refl, h)
both false b h = absurd (cc h)

accepted : (b : Bool) → answer b ≡ none → b ≡ true
accepted true h = refl
accepted false h = absurd (cc h)

severity_cases :
    (s : Text)
    → is_severity s ≡ true
    → (s ≡ codes "low") ⊎ (s ≡ codes "medium") ⊎ (s ≡ codes "high")
severity_cases s h =
    elim (either (text_eq s (codes "low") || text_eq s (codes "medium")) (text_eq s (codes "high"))
      h) [
        | inl k ↦ elim (either (text_eq s (codes "low")) (text_eq s (codes "medium")) k) [
          | inl e ↦ inl (text_of_test s _ e)
          | inr e ↦ inr (inl (text_of_test s _ e))
        ]
        | inr e ↦ inr (inr (text_of_test s _ e))
      ]

process_cases : (s : Text) → is_process s ≡ true → (s ≡ codes "request") ⊎ (s ≡ codes "internal")
process_cases s h = elim (either (text_eq s (codes "request")) (text_eq s (codes "internal")) h) [
  | inl e ↦ inl (text_of_test s _ e)
  | inr e ↦ inr (text_of_test s _ e)
]

at_most : (a b : ℕ) → leb a b ≡ true → a ≤ b
at_most a b h = ground arith

any : (s : Option Text) → IsNullOr IsAny s
any none = tt
any (some s) = tt

strict : (row : Row) → exec row ≡ none → IsRow IsAny IsInet IsAny row
strict row h =
    let (severity, rest) =
      both (null_or is_severity row.severity) (all_but_severity row) (accepted (accepts row) h) in
    let (operation, rest) = both (leb (length row.operation) 100) (target_and_origin row) rest in
    let (target, rest) =
      both (null_or (λ s. leb (length s) 255) row.target_name) (origin row) rest in
    let (process, address) =
      both (is_process row.process_type) (null_or is_inet row.client_ip) rest in
    record {
      id = tt;
      severity = null_or-IsNullOr is_severity row.severity severity_cases severity;
      operation = at_most _ _ operation;
      target_name =
          null_or-IsNullOr (λ s. leb (length s) 255) row.target_name (λ s. at_most (length s) 255)
            target;
      process_id = tt;
      process_type = process_cases row.process_type process;
      client_ip = null_or-IsNullOr is_inet row.client_ip (λ s e. e) address;
      metadata = any row.metadata;
    }

abbrev event : Text → LogEvent
event client_ip = record {
  process_id = codes "p";
  process_type = request;
  start_time = 1;
  client_ip = client_ip;
}

abbrev call : LogCall
call = log_info (codes "http_request_start") (codes "HTTP request received")

runs :
    (insert_log exec (log_entry none (codes "e") (codes "i") 7 call) none ≡ none)
    × (insert_log exec
          (log_entry (some (event (codes "10.0.0.1"))) (codes "e") (codes "i") 7 call)
          none
        ≡ none)
unfolding entries
runs = (refl, refl)

row_of-IsRow_example :
    IsRow IsAny IsInet IsAny (
      row_of
        (log_entry (with_log_event none (event (codes "10.0.0.1"))) (codes "e") (codes "i") 7 call)
        none)
    ↔ Fits IsAny IsInet IsAny (codes "i") (event (codes "10.0.0.1")) call none
row_of-IsRow_example =
    row_of-IsRow IsAny IsInet IsAny none (event (codes "10.0.0.1")) (codes "e") (codes "i") 7 call
      none

insert_log-lost_example :
    insert_log exec
      (log_entry (with_log_event none (event (codes "unknown"))) (codes "e") (codes "i") 7 call)
      none
    ≢ none
insert_log-lost_example =
    insert_log-lost IsAny IsInet IsAny exec strict none (event (codes "unknown")) (codes "e")
      (codes "i") 7 call (λ h. cc h) (λ h. cc h)

-- A database that answers and cannot make the table.
abbrev read_only : Pgx ℕ ℕ
read_only = record {
  parse_config = λ s. ok 5432;
  port = λ config. config;
  new_with_config = λ config. ok 7;
  ping = λ pool. none;
  exec_create_table = λ pool. some (plain (codes "read-only transaction"));
}

closed_again : (new_supabase_connection read_only (codes "postgresql://db")).closed ≡ 7 ∷ []
unfolding new_supabase_connection
closed_again = refl

new_supabase_connection-Way_example :
    Way read_only (new_supabase_connection read_only (codes "postgresql://db"))
new_supabase_connection-Way_example =
    new_supabase_connection-Way read_only (codes "postgresql://db")
