-- ===== src/Program/Lifecycle/Ends.antt =====
-- How the process of main.go ends.
use perion_assignment.Common.{
  ℕ, zero, suc, ◌≡◌, refl, ◌⊎◌, inl, inr, true, false, none, some, List, [], ◌∷◌, ◌++◌,
}
use perion_assignment.Models.Errors.{GoError}
use perion_assignment.Models.Log.{LogCall}
use perion_assignment.Program.Lifecycle.{
  draining, Server, created, listening, ended, Process, process, failed_to_start, shutdown_error,
  shut_down, ends_well, Step, begins, accepts, answers, breaks, signalled, closes, fatal, drained,
  overdue, Run, rests, steps, launched,
}

-- A process that runs, has ended well, or has ended fatally.
pub data State (p : Process) : Type 0 where
  running : p.exit ≡ none → p.closed ≡ false → State p
  well :
      p.exit ≡ some 0
      → p.closed ≡ true
      → (before : List LogCall)
      → ((p.requests ≡ 0) × (p.log ≡ before ++ shut_down ∷ []))
        ⊎ ((e : GoError) × (p.log ≡ before ++ shutdown_error e ∷ []))
      → State p
  fatally :
      p.exit ≡ some 1
      → p.closed ≡ false
      → (before : List LogCall) (e : GoError) → p.server ≡ ended e
      → p.log ≡ before ++ failed_to_start e ∷ []
      → State p

Step-State : {p q : Process} → Step p q → State q
Step-State begins = running refl refl
Step-State accepts = running refl refl
Step-State answers = running refl refl
Step-State (breaks e) = running refl refl
Step-State signalled = running refl refl
Step-State closes = running refl refl
Step-State (fatal {e = e} {log = log}) = fatally refl refl log e refl refl
Step-State (drained {log = log}) = well refl refl log (inl (refl, refl))
Step-State (overdue e {log = log}) = well refl refl log (inr (e, refl))

Run-State_of : {p q : Process} → State p → Run p q → State q
Run-State_of s rests = s
Run-State_of s (steps step run) = Run-State_of (Step-State step) run

-- Every process that is reached runs, with its logger open; or has ended with status 0, its logger
-- closed, behind the log call of a shutdown that left no request or that failed; or has ended with
-- status 1, its logger not closed, behind the log call of the server's error.
pub Run-State : (log : List LogCall) (p : Process) → Run (launched log) p → State p
Run-State log p run = Run-State_of (running refl refl) run

-- The requests that are left are answered, one after the other, and the shutdown is over.
drains :
    (server : Server) (n : ℕ) (log : List LogCall)
    → Run (process draining server n log) (ends_well server 0 (log ++ shut_down ∷ []))
drains server zero log = steps drained rests
drains server (suc n) log = steps answers (drains server n log)

-- The goroutine behind `ListenAndServe`, which the shutdown makes return.
cut_off :
    (server : Server) (n : ℕ) (log : List LogCall)
    → (q : Process) × Run (process draining server n log) q
      × (q.exit ≡ some 1)
      × (q.requests ≡ n)
      × (q.closed ≡ false)
cut_off created n log = (_, steps begins (steps closes (steps fatal rests)), refl, refl, refl)
cut_off listening n log = (_, steps closes (steps fatal rests), refl, refl, refl)
cut_off (ended e) n log = (_, steps fatal rests, refl, refl, refl)

-- Whenever `main` waits for the shutdown, both ends are possible: status 0 with every request
-- answered and the logger closed, and status 1 with every request cut off and the logger open.
pub shutdown_races :
    (server : Server) (n : ℕ) (log : List LogCall)
    → ((p : Process) × Run (process draining server n log) p
        × (p.exit ≡ some 0)
        × (p.requests ≡ 0)
        × (p.closed ≡ true))
      × ((q : Process) × Run (process draining server n log) q
          × (q.exit ≡ some 1)
          × (q.requests ≡ n)
          × (q.closed ≡ false))
shutdown_races server n log = ((_, drains server n log, refl, refl, refl), cut_off server n log)
