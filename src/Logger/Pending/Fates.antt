-- ===== src/Logger/Pending/Fates.antt =====
-- What becomes of the entries of internal/logger/logger.go.
use mathlib.Core.List.{Perm, perm_middle, map-append}
use mathlib.Core.List.Perm
use perion_assignment.Common.{
  ℕ, ◌+◌, ◌≤◌, ◌≡◌, refl, ◌∙◌, ap, Bool, true, false, Option, none, some, List, [], ◌∷◌, ◌++◌, All,
  map, length, arith, length-append,
}
use perion_assignment.Text.{Text}
use perion_assignment.Models.Errors.{GoError, Result, ok, err}
use perion_assignment.Models.Log.{LogEntry}
use perion_assignment.Logger.{Row, row_of, insert_log, executed}
use perion_assignment.Logger.Pending.{
  Item, item, Verdict, takes, refuses, takes_late, error_of, rows_of, sent_row, rows_added,
  inserted, printed_on, Journal, journal, exec_on, Step, logs, runs, closes, Run, rests, steps,
  opened,
}

-- Where the entries are: the table has the rows of those that are stored and no others, and an error was
-- printed for each that is neither pending nor stored.
pub record IsAccounted (j : Journal) : Type 0 where
  pub stored : List Item
  pub failed : List Item
  pub all_made : Perm j.made (j.pending ++ (stored ++ failed))
  pub rows : map some j.table ≡ map sent_row stored
  pub errors : length failed ≤ length j.printed

some-inj : {x y : Row} → Path (Option Row) (some x) (some y) → x ≡ y
some-inj h = cc

-- An entry goes from the pending ones to the others.
Perm-goes :
    (before after rest : List Item) (i : Item)
    → Perm ((before ++ i ∷ after) ++ rest) ((before ++ after) ++ i ∷ rest)
Perm-goes before after rest i =
    Perm.trans (Perm.append_right rest (perm_middle before after))
      (Perm.symm (perm_middle (before ++ after) rest))

-- What a goroutine comes to: its row is in the table, or its error is printed.
data Outcome (i : Item) (rows : List Row) (printed : List GoError) : Type 0 where
  is_stored : (row : Row) → sent_row i ≡ some row → rows ≡ row ∷ [] → Outcome i rows printed
  is_lost : (e : GoError) → rows ≡ [] → printed ≡ e ∷ [] → Outcome i rows printed

sent-Outcome :
    (i : Item) (row : Row) (v : Verdict)
    → sent_row i ≡ some row
    → Outcome i (rows_of row v) (printed_on (executed (error_of v)))
sent-Outcome i row takes h = is_stored row h refl
sent-Outcome i row (refuses e) h = is_lost _ refl refl
sent-Outcome i row (takes_late e) h = is_stored row h refl

item-Outcome :
    (exec : Row → Verdict) (i : Item)
    → Outcome i (rows_added exec (sent_row i)) (printed_on (inserted exec i))
unfolding insert_log
item-Outcome exec i = go i.entry i.metadata
  where
    go :
        (entry : LogEntry) (metadata : Option (Result Text))
        → Outcome
            (item entry metadata)
            (rows_added exec (sent_row (item entry metadata)))
            (printed_on (inserted exec (item entry metadata)))
    go entry none =
        sent-Outcome (item entry none) (row_of entry none) (exec (row_of entry none)) refl
    go entry (some (ok json)) =
        sent-Outcome (item entry (some (ok json))) (row_of entry (some json))
          (exec (row_of entry (some json))) refl
    go entry (some (err e)) = is_lost _ refl refl

module _ (database : (now : ℕ) → Row → Verdict) where
  runs-IsAccounted :
      (made before after : List Item) (i : Item) (table rows : List Row)
      (printed errors : List GoError) (is_open : Bool)
      → Outcome i rows errors
      → IsAccounted (journal made (before ++ i ∷ after) table printed is_open)
      → IsAccounted (journal made (before ++ after) (rows ++ table) (errors ++ printed) is_open)
  runs-IsAccounted made before after i table rows printed errors is_open (is_stored row sent e) h =
      record {
        stored = i ∷ h.stored;
        failed = h.failed;
        all_made = Perm.trans h.all_made (Perm-goes before after (h.stored ++ h.failed) i);
        rows = rw (e, sent) (ap (λ l. some row ∷ l) h.rows);
        errors = omega (arith, h.errors, length-append errors printed);
      }
  runs-IsAccounted made before after i table rows printed errors is_open (is_lost x e f) h =
      record {
        stored = h.stored;
        failed = i ∷ h.failed;
        all_made = Perm.trans h.all_made (
            Perm.trans (Perm-goes before after (h.stored ++ h.failed) i)
              (Perm.append_left (before ++ after) (Perm.symm (perm_middle h.stored h.failed))));
        rows = rw e h.rows;
        errors = rw f (omega (arith, h.errors));
      }

  Step-IsAccounted : {j k : Journal} → Step database j k → IsAccounted j → IsAccounted k
  Step-IsAccounted (logs ctx event_id id now call metadata) h = record {
    stored = h.stored;
    failed = h.failed;
    all_made = Perm.cons _ h.all_made;
    rows = h.rows;
    errors = h.errors;
  }
  Step-IsAccounted (runs before after i now {made} {table} {printed} {is_open}) h =
      runs-IsAccounted made before after i table _ printed _ is_open
        (item-Outcome (exec_on database is_open now) i) h
  Step-IsAccounted closes h = record {
    stored = h.stored;
    failed = h.failed;
    all_made = h.all_made;
    rows = h.rows;
    errors = h.errors;
  }

  Run-IsAccounted_of : {j k : Journal} → Run database j k → IsAccounted j → IsAccounted k
  Run-IsAccounted_of rests h = h
  Run-IsAccounted_of (steps step run) h = Run-IsAccounted_of run (Step-IsAccounted step h)

  -- Whatever the database answers and whenever the connection is closed, and however the goroutines
  -- are scheduled: the table has one row for each of some of the entries that were made, the one that
  -- this entry has, and no other row; and of the others each is still pending, or an error was printed
  -- for it.
  pub Run-IsAccounted : (j : Journal) → Run database opened j → IsAccounted j
  Run-IsAccounted j run = Run-IsAccounted_of run (record {
    stored = [];
    failed = [];
    all_made = Perm.refl [];
    rows = refl;
    errors = omega arith;
  })

  -- An entry that the database takes at any time.
  abbrev pub IsTaken : Item → Type 0
  IsTaken i = (row : Row) × (sent_row i ≡ some row) × ((now : ℕ) → database now row ≡ takes)

  -- The goroutine of an entry that the database takes, and of any entry behind `Close`.
  taken_lem :
      (i : Item)
      → IsTaken i
      → (map some (rows_added (database 0) (sent_row i)) ≡ sent_row i ∷ [])
        × (printed_on (inserted (database 0) i) ≡ [])
  unfolding insert_log
  taken_lem i (row, sent, good) = go i.entry i.metadata sent
    where
      taken : (r : Row) → Path (Option Row) (some r) (some row) → database 0 r ≡ takes
      taken r e = ap (database 0) (some-inj e) ∙ good 0

      go :
          (entry : LogEntry) (metadata : Option (Result Text))
          → sent_row (item entry metadata) ≡ some row
          → (map some (rows_added (database 0) (sent_row (item entry metadata)))
              ≡ sent_row (item entry metadata) ∷ [])
            × (printed_on (inserted (database 0) (item entry metadata)) ≡ [])
      go entry none e = rw (taken (row_of entry none) e) (refl, refl)
      go entry (some (ok json)) e = rw (taken (row_of entry (some json)) e) (refl, refl)
      go entry (some (err x)) e = absurd (cc e)

  refused_lem :
      (i : Item)
      → (rows_added (exec_on database false 0) (sent_row i) ≡ [])
        × (x : GoError) × (printed_on (inserted (exec_on database false 0) i) ≡ x ∷ [])
  unfolding insert_log
  refused_lem i = go i.entry i.metadata
    where
      go :
          (entry : LogEntry) (metadata : Option (Result Text))
          → (rows_added (exec_on database false 0) (sent_row (item entry metadata)) ≡ [])
            × (x : GoError) × (printed_on
                  (inserted (exec_on database false 0) (item entry metadata))
                ≡ x ∷ [])
      go entry none = (refl, _, refl)
      go entry (some (ok json)) = (refl, _, refl)
      go entry (some (err e)) = (refl, _, refl)

  -- The goroutines run before `Close`, one after the other.
  all_stored :
      (pending made : List Item) (table : List Row) (printed : List GoError)
      → All IsTaken pending
      → (table' : List Row) × Run database
          (journal made pending table printed true)
          (journal made [] table' printed false)
        × Perm (map sent_row pending ++ map some table) (map some table')
  all_stored [] made table printed h = (table, steps closes rests, Perm.refl _)
  all_stored (i ∷ pending) made table printed (taken, h) =
      let (row, quiet) = taken_lem i taken in
      let added = rows_added (database 0) (sent_row i) in
      let (table', run, same) = all_stored pending made (added ++ table) printed h in
      (
        table',
        steps (runs [] pending i 0) (rw quiet run),
        Perm.trans (Perm.symm (perm_middle (map sent_row pending) (map some table)))
            (rw (map-append some added table, row) at same),
      )

  -- The goroutines run behind `Close`.
  all_lost :
      (pending made : List Item) (table : List Row) (printed : List GoError)
      → (printed' : List GoError) × Run database
          (journal made pending table printed false)
          (journal made [] table printed' false)
        × (length printed' ≡ length pending + length printed)
  all_lost [] made table printed = (printed, rests, omega arith)
  all_lost (i ∷ pending) made table printed =
      let (no_row, x, loud) = refused_lem i in
      let (printed', run, count) = all_lost pending made table (x ∷ printed) in
      (printed', steps (runs [] pending i 0) (rw (no_row, loud) run), omega (arith, count))

  -- While entries are pending that the database takes whenever it is asked, two ends of the logger are
  -- possible, each with the connection closed and no goroutine left: in one, all of these entries are in
  -- the table beside the rows that were there, and no error is printed; in the other one, the table has
  -- none of them, and an error is printed for each.
  pub close_races :
      (made pending : List Item) (table : List Row) (printed : List GoError)
      → All IsTaken pending
      → ((table' : List Row) × Run database
            (journal made pending table printed true)
            (journal made [] table' printed false)
          × Perm (map sent_row pending ++ map some table) (map some table'))
        × ((printed' : List GoError) × Run database
              (journal made pending table printed true)
              (journal made [] table printed' false)
            × (length printed' ≡ length pending + length printed))
  close_races made pending table printed taken =
      let (printed', run, count) = all_lost pending made table printed in
      (all_stored pending made table printed taken, (printed', steps closes run, count))
