-- ===== src/Logger/Rows.antt =====
-- The rows of internal/logger/database.go against the columns of its table.
use perion_assignment.Common.{
  ℕ, ◌≤◌, ◌≡◌, refl, ◌⊎◌, ◌≢◌, inl, inr, ◌↔◌, Option, none, some, [], ◌∷◌, length, arith,
}
use perion_assignment.Text.{Text, codes}
use perion_assignment.Models.Errors.{GoError}
use perion_assignment.Models.Log.{
  LogSeverity, low, medium, high, LogCall, ProcessType, request, internal, LogEvent, LogEntry,
}
use perion_assignment.Logger.{
  Context, with_log_event, get_log_event, log_entry, Row, present, severity_text, process_text,
  severity_column, row_of, executed, insert_log,
}

-- A column that may be NULL holds a value of its type.
abbrev pub IsNullOr : (Text → Type 0) → Option Text → Type 0
IsNullOr P none = Unit {0}
IsNullOr P (some s) = P s

-- The columns of `application_logs`, over the texts that the database reads as a UUID, an address and
-- JSON: their types, lengths and CHECK constraints.
pub record IsRow (IsUuid IsInet IsJson : Text → Type 0) (row : Row) : Type 0 where
  pub id : IsUuid row.id
  pub severity :
      IsNullOr (λ s. (s ≡ codes "low") ⊎ (s ≡ codes "medium") ⊎ (s ≡ codes "high")) row.severity
  pub operation : length row.operation ≤ 100
  pub target_name : IsNullOr (λ s. length s ≤ 255) row.target_name
  pub process_id : IsUuid row.process_id
  pub process_type : (row.process_type ≡ codes "request") ⊎ (row.process_type ≡ codes "internal")
  pub client_ip : IsNullOr IsInet row.client_ip
  pub metadata : IsNullOr IsJson row.metadata

severity_column-IsNullOr :
    (s : Option LogSeverity)
    → IsNullOr
        (λ t. (t ≡ codes "low") ⊎ (t ≡ codes "medium") ⊎ (t ≡ codes "high"))
        (severity_column s)
unfolding severity_text
severity_column-IsNullOr none = tt
severity_column-IsNullOr (some low) = inl refl
severity_column-IsNullOr (some medium) = inr (inl refl)
severity_column-IsNullOr (some high) = inr (inr refl)

process_text-cases :
    (p : ProcessType) → (process_text p ≡ codes "request") ⊎ (process_text p ≡ codes "internal")
unfolding process_text
process_text-cases request = inl refl
process_text-cases internal = inr refl

-- A text that is stored as NULL where it is empty.
present-IsNullOr : (P : Text → Type 0) (s : Text) → IsNullOr P (present s) ↔ ((s ≡ []) ⊎ P s)
present-IsNullOr P [] = ((λ h. inl refl), (λ h. tt))
present-IsNullOr P (c ∷ s) = (inr, (λ h. elim h [ inl e ↦ absurd (cc e) | inr p ↦ p ]))

short_or_empty : (s : Text) (n : ℕ) → (s ≡ []) ⊎ (length s ≤ n) → length s ≤ n
short_or_empty s n (inl e) = rw e (omega arith)
short_or_empty s n (inr h) = h

module _ (IsUuid IsInet IsJson : Text → Type 0) where
  -- What a log call needs for its entry to fit the table.
  abbrev pub Fits : (id : Text) → LogEvent → LogCall → Option Text → Type 0
  Fits id event call metadata =
      IsUuid id
      × IsUuid event.process_id
      × (length call.operation ≤ 100)
      × (length call.target_name ≤ 255)
      × ((event.client_ip ≡ []) ⊎ IsInet event.client_ip)
      × IsNullOr IsJson metadata

  -- The row of a log call under an event fits the table exactly when its identifiers are UUIDs, its
  -- operation and target are of 100 and 255 characters at most, its metadata are JSON, and its
  -- client address, if there is one, is an address for the database; severity and process type
  -- always pass their checks.
  pub row_of-IsRow :
      (ctx : Context) (event : LogEvent) (event_id id : Text) (now : ℕ) (call : LogCall)
      (metadata : Option Text)
      → IsRow IsUuid IsInet IsJson
          (row_of (log_entry (with_log_event ctx event) event_id id now call) metadata)
        ↔ Fits id event call metadata
  unfolding row_of log_entry get_log_event with_log_event
  row_of-IsRow ctx event event_id id now call metadata = (
    (λ r. (
      r.id,
      r.process_id,
      r.operation,
      short_or_empty _ _ ((present-IsNullOr _ call.target_name).0 r.target_name),
      (present-IsNullOr _ event.client_ip).0 r.client_ip,
      r.metadata,
    )),
    (λ (uuid, process, operation, target, address, json). record {
      id = uuid;
      severity = severity_column-IsNullOr call.severity;
      operation = operation;
      target_name = (present-IsNullOr _ call.target_name).1 (inr target);
      process_id = process;
      process_type = process_text-cases event.process_type;
      client_ip = (present-IsNullOr _ event.client_ip).1 address;
      metadata = json;
    }),
  )

  module _ (exec : Row → Option GoError)
      (strict : (row : Row) → exec row ≡ none → IsRow IsUuid IsInet IsJson row) where
    inserted :
        (entry : LogEntry) (metadata : Option Text)
        → executed (exec (row_of entry metadata)) ≡ none
        → IsRow IsUuid IsInet IsJson (row_of entry metadata)
    inserted entry metadata h =
        strict (row_of entry metadata) (not_failed (exec (row_of entry metadata)) h)
      where
        not_failed : (o : Option GoError) → executed o ≡ none → o ≡ none
        not_failed none h = refl
        not_failed (some e) h = absurd (cc h)

    -- With a database that stores no row that does not fit its table: a call without metadata under
    -- an event whose address is neither empty nor one for the database is not stored.
    pub insert_log-lost :
        (ctx : Context) (event : LogEvent) (event_id id : Text) (now : ℕ) (call : LogCall)
        → event.client_ip ≢ []
        → ¬ IsInet event.client_ip
        → insert_log exec (log_entry (with_log_event ctx event) event_id id now call) none ≢ none
    unfolding insert_log
    insert_log-lost ctx event event_id id now call full bad stored =
        let fits = (row_of-IsRow ctx event event_id id now call none).0 (inserted _ none stored) in
        elim fits.4 [ inl e ↦ full e | inr inet ↦ bad inet ]
