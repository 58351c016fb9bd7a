-- ===== src/Program/Lifecycle.antt =====
-- The life of the process from the start of the server on: the end of `main` in main.go, its goroutine,
-- and `Start` and `Shutdown` of internal/http/router.go, as steps of two goroutines. net/http is a part
-- of the relation as it is documented: `ListenAndServe` returns an error always, and at once the one of
-- a closed server when `Shutdown` is called; `Shutdown` returns when no request is being served, or
-- with the error of its context.
pub mod Ends
use perion_assignment.Common.{
  ℕ, zero, suc, ◌≡◌, ◌≢◌, Bool, true, false, Option, none, some, List, [], ◌∷◌, ◌++◌,
}
use perion_assignment.Text.{Text, codes}
use perion_assignment.Models.Errors.{GoError, plain}
use perion_assignment.Models.Log.{LogCall, medium, high, log_info, log_error}

-- `main`: it waits for a signal, waits for `Shutdown`, or has returned.
pub data Main : Type 0 where
  waiting draining returned : Main

-- The goroutine of the server: not yet run, in `ListenAndServe`, or behind it with its error.
pub data Server : Type 0 where
  created listening : Server
  ended : GoError → Server

pub record Process : Type 0 where
  pub main : Main
  pub server : Server
  pub requests : ℕ  -- that are being served
  pub log : List LogCall
  pub closed : Bool  -- whether the deferred `Close` of the logger and of its database have run
  pub exit : Option ℕ

abbrev pub process : Main → Server → ℕ → List LogCall → Process
process main server requests log = record {
  main = main;
  server = server;
  requests = requests;
  log = log;
  closed = false;
  exit = none;
}

-- `http.ErrServerClosed`.
abbrev pub server_closed : GoError
server_closed = plain (codes "http: Server closed")

-- The log calls of `Start`, of `Shutdown`, of the goroutine and of the end of `main`.
abbrev pub starting : LogCall
starting = log_info (codes "server_start") (codes "Starting HTTP server")

abbrev pub shutting_down : LogCall
shutting_down = log_info (codes "server_shutdown") (codes "Shutting down HTTP server")

abbrev pub failed_to_start : GoError → LogCall
failed_to_start e = log_error (codes "server_start") [] (codes "Server failed to start") e high

abbrev pub shutdown_error : GoError → LogCall
shutdown_error e = log_error (codes "server_shutdown") [] (codes "Server shutdown error") e medium

abbrev pub shut_down : LogCall
shut_down = log_info (codes "server_shutdown") (codes "Server shutdown completed successfully")

-- `main` returns, behind its log call: the deferred calls run, and the process ends.
abbrev pub ends_well : Server → ℕ → List LogCall → Process
ends_well server requests log = record {
  main = returned;
  server = server;
  requests = requests;
  log = log;
  closed = true;
  exit = some 0;
}

-- `log.Fatalf`, which ends the process without the deferred calls.
abbrev pub ends_fatally : Main → Server → ℕ → List LogCall → Process
ends_fatally main server requests log = record {
  main = main;
  server = server;
  requests = requests;
  log = log;
  closed = false;
  exit = some 1;
}

pub data Step : Process → Process → Type 0 where
  begins :
      {main : Main} {n : ℕ} {log : List LogCall}
      → Step (process main created n log) (process main listening n (log ++ starting ∷ []))
  accepts :
      {n : ℕ} {log : List LogCall}
      → Step (process waiting listening n log) (process waiting listening (suc n) log)
  answers :
      {main : Main} {server : Server} {n : ℕ} {log : List LogCall}
      → Step (process main server (suc n) log) (process main server n log)
  breaks :
      (e : GoError) {n : ℕ} {log : List LogCall}
      → Step (process waiting listening n log) (process waiting (ended e) n log)
  signalled :
      {server : Server} {n : ℕ} {log : List LogCall}
      → Step (process waiting server n log) (process draining server n (log ++ shutting_down ∷ []))
  closes :
      {n : ℕ} {log : List LogCall}
      → Step (process draining listening n log) (process draining (ended server_closed) n log)
  fatal :
      {main : Main} {e : GoError} {n : ℕ} {log : List LogCall}
      → Step
          (process main (ended e) n log)
          (ends_fatally main (ended e) n (log ++ failed_to_start e ∷ []))
  drained :
      {server : Server} {log : List LogCall}
      → Step (process draining server 0 log) (ends_well server 0 (log ++ shut_down ∷ []))
  overdue :
      (e : GoError) {server : Server} {n : ℕ} {log : List LogCall}
      → Step (process draining server n log) (ends_well server n (log ++ shutdown_error e ∷ []))

pub data Run : Process → Process → Type 0 where
  rests : {p : Process} → Run p p
  steps : {p q r : Process} → Step p q → Run q r → Run p r

-- The process when the goroutine has been started.
abbrev pub launched : List LogCall → Process
launched log = process waiting created 0 log
