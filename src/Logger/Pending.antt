-- ===== src/Logger/Pending.antt =====
-- The goroutines of internal/logger/logger.go: `logEntry` makes its entry at once and leaves the
-- insertion to a goroutine that nothing waits for, as steps in any order with the one that closes the
-- connection. The database is a parameter: what it answers to a statement at a time, with the row
-- stored or not. A closed pool refuses every statement, as pgx documents.
pub mod Fates
mod Examples
use Prim.Native.String.{String}
use perion_assignment.Common.{ℕ, Bool, true, false, Option, none, some, List, [], ◌∷◌, ◌++◌, ◌≡◌}
use perion_assignment.Text.{Text, codes}
use perion_assignment.Models.Errors.{GoError, plain, Result, ok, err}
use perion_assignment.Models.Log.{LogCall, LogEntry}
use perion_assignment.Logger.{Context, log_entry, Row, row_of, insert_log}

-- An entry with what `json.Marshal` answers to its metadata, if it has any.
pub record Item : Type 0 where
  pub entry : LogEntry
  pub metadata : Option (Result Text)

abbrev pub item : LogEntry → Option (Result Text) → Item
item entry metadata = record { entry = entry; metadata = metadata }

-- What becomes of a statement: the row is stored; or it is not, with an error; or it is stored and the
-- caller has an error, as when its 5 seconds are over.
pub data Verdict : Type 0 where
  takes : Verdict
  refuses : GoError → Verdict
  takes_late : GoError → Verdict

abbrev pub error_of : Verdict → Option GoError
error_of takes = none
error_of (refuses e) = some e
error_of (takes_late e) = some e

abbrev pub rows_of : Row → Verdict → List Row
rows_of row takes = row ∷ []
rows_of row (refuses e) = []
rows_of row (takes_late e) = row ∷ []

-- The row that reaches the database, if the metadata can be marshalled.
abbrev pub sent_row : Item → Option Row
sent_row i = sent i.metadata
  where
    sent : Option (Result Text) → Option Row
    sent none = some (row_of i.entry none)
    sent (some (ok json)) = some (row_of i.entry (some json))
    sent (some (err e)) = none

-- The rows that `InsertLog` adds to the table, its answer, and what the goroutine prints.
abbrev pub rows_added : (Row → Verdict) → Option Row → List Row
rows_added exec none = []
rows_added exec (some row) = rows_of row (exec row)

abbrev pub inserted : (Row → Verdict) → Item → Option GoError
inserted exec i = insert_log (λ row. error_of (exec row)) i.entry i.metadata

abbrev pub printed_on : Option GoError → List GoError
printed_on none = []
printed_on (some e) = e ∷ []

-- The entries that were made, the newest first; those whose goroutines have not run; the table; the
-- errors that were printed; and whether the pool is open.
pub record Journal : Type 0 where
  pub made : List Item
  pub pending : List Item
  pub table : List Row
  pub printed : List GoError
  pub is_open : Bool

abbrev pub journal : (made pending : List Item) → List Row → List GoError → Bool → Journal
journal made pending table printed is_open = record {
  made = made;
  pending = pending;
  table = table;
  printed = printed;
  is_open = is_open;
}

module _ (database : (now : ℕ) → Row → Verdict) where
  -- `Exec` of the pool.
  abbrev pub exec_on : Bool → (now : ℕ) → Row → Verdict
  exec_on true now row = database now row
  exec_on false now row = refuses (plain (codes "closed pool"))

  -- A log call; the goroutine of an entry; and `Close`.
  pub data Step : Journal → Journal → Type 0 where
    logs :
        (ctx : Context) (event_id id : Text) (now : ℕ) (call : LogCall)
        (metadata : Option (Result Text)) {made pending : List Item} {table : List Row}
        {printed : List GoError} {is_open : Bool}
        → Step (journal made pending table printed is_open) (
            journal
              (item (log_entry ctx event_id id now call) metadata ∷ made)
              (item (log_entry ctx event_id id now call) metadata ∷ pending)
              table
              printed
              is_open)
    runs :
        (before after : List Item) (i : Item) (now : ℕ) {made : List Item} {table : List Row}
        {printed : List GoError} {is_open : Bool}
        → Step (journal made (before ++ i ∷ after) table printed is_open) (
            journal made
              (before ++ after)
              (rows_added (exec_on is_open now) (sent_row i) ++ table)
              (printed_on (inserted (exec_on is_open now) i) ++ printed)
              is_open)
    closes :
        {made pending : List Item} {table : List Row} {printed : List GoError} {is_open : Bool}
        → Step
            (journal made pending table printed is_open)
            (journal made pending table printed false)

  pub data Run : Journal → Journal → Type 0 where
    rests : {j : Journal} → Run j j
    steps : {j k l : Journal} → Step j k → Run k l → Run j l

-- The logger of a new connection.
abbrev pub opened : Journal
opened = journal [] [] [] [] true
