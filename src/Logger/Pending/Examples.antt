-- ===== src/Logger/Pending/Examples.antt =====
-- The log calls of a start that fails, and the theorems on the goroutines of the logger at them.
use mathlib.Core.List.{Perm}
use perion_assignment.Common.{
  some, ℕ, map, length, ◌≡◌, refl, true, false, Option, none, List, [], ◌∷◌,
}
use perion_assignment.Text.{Text, codes}
use perion_assignment.Models.Errors.{GoError, plain, Result}
use perion_assignment.Models.Log.{LogCall, high, log_info, log_error}
use perion_assignment.Logger.{log_entry, Row, row_of, insert_log}
use perion_assignment.Logger.Pending.{
  Item, item, Verdict, takes, sent_row, journal, logs, runs, Run, rests, steps, opened,
}
use perion_assignment.Logger.Pending.Fates.{IsAccounted, Run-IsAccounted, close_races}

abbrev greeting : LogCall
greeting = log_info (codes "server_start") (codes "Starting AdsTxt Analysis API")

abbrev failure : LogCall
failure =
    log_error (codes "cache_init") [] (codes "Failed to initialize cache") (plain (codes "dial"))
      high

abbrev no_metadata : Option (Result Text)
no_metadata = none

abbrev one : Item
one = item (log_entry none (codes "p") (codes "a") 1 greeting) no_metadata

abbrev two : Item
two = item (log_entry none (codes "q") (codes "b") 2 failure) no_metadata

-- A database that takes every row.
abbrev takes_all : (now : ℕ) → Row → Verdict
takes_all now row = takes

abbrev row_two : Row
row_two = row_of two.entry none

-- The second call is stored, and the first one is pending.
overtakes : Run takes_all opened (journal (two ∷ one ∷ []) (one ∷ []) (row_two ∷ []) [] true)
unfolding insert_log
overtakes = steps (logs none (codes "p") (codes "a") 1 greeting no_metadata) (
    steps (logs none (codes "q") (codes "b") 2 failure no_metadata)
      (steps (runs [] (one ∷ []) two 3) rests))

Run-IsAccounted_example : IsAccounted (journal (two ∷ one ∷ []) (one ∷ []) (row_two ∷ []) [] true)
Run-IsAccounted_example =
    Run-IsAccounted takes_all (journal (two ∷ one ∷ []) (one ∷ []) (row_two ∷ []) [] true) overtakes

close_races_example :
    ((table' : List Row) × Run takes_all
        (journal (two ∷ one ∷ []) (two ∷ one ∷ []) [] [] true)
        (journal (two ∷ one ∷ []) [] table' [] false)
      × Perm (sent_row two ∷ sent_row one ∷ []) (map some table'))
    × ((printed' : List GoError) × Run takes_all
          (journal (two ∷ one ∷ []) (two ∷ one ∷ []) [] [] true)
          (journal (two ∷ one ∷ []) [] [] printed' false)
        × (length printed' ≡ 2))
close_races_example =
    close_races takes_all (two ∷ one ∷ []) (two ∷ one ∷ []) [] []
      ((_, refl, (λ now. refl)), ((_, refl, (λ now. refl)), tt))
