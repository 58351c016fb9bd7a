-- ===== src/Program/Examples.antt =====
-- Runs of main.go, and the theorem on its limits there.
use perion_assignment.Common.{
  true, false, Option, none, some, ◌↔◌, ℕ, ◌+◌, ◌-◌, ◌*◌, ◌≤◌, ◌≡◌, refl, if◌then◌else◌, List, [],
  ◌∷◌, arith,
}
use perion_assignment.Text.{Text, codes, text_eq}
use perion_assignment.Models.Errors.{GoError, plain, Result, ok, err}
use perion_assignment.Float.{second}
use perion_assignment.Cache.{new_memory_cache}
use perion_assignment.Config.{load, scan, atoi, in_seconds, get_env, get_int_env, get_duration_env}
use perion_assignment.Http.Middleware.{Handler, returned}
use perion_assignment.Http.Router.Bound.{Happening, arrives, sweeps, event_at, counted, happen_all}
use perion_assignment.Program.{memory, initialize_cache, new_limiter, start, boot}
use perion_assignment.Models.Log.{log_info}
use perion_assignment.Program.Lifecycle.{
  Process, process, draining, listening, starting, shutting_down, launched, Run, rests, steps,
  begins, accepts, signalled,
}
use perion_assignment.Program.Lifecycle.Ends.{shutdown_races}
use perion_assignment.Program.Boots.{IsReady, HasCache, boot-IsReady}
use perion_assignment.Program.Limits.{per_ip, calls_bound}

-- What the runs unfold.
program : Unit {0}
unfolding scan atoi in_seconds get_env get_int_env get_duration_env load text_eq initialize_cache
    new_limiter start event_at
program = tt

-- An environment without the program's variables, and one that names another cache.
abbrev nothing_set : Text → Text
nothing_set key = []

abbrev other_cache : Text → Text
other_cache key = if text_eq key (codes "CACHE_TYPE") then codes "disk" else []

abbrev unreachable : Text → Result ℕ
unreachable url = err (plain (codes "dial"))

starts :
    (start unreachable (load other_cache) 0 ≡ err (plain (codes "unsupported cache type: disk")))
    × (per_ip (load nothing_set) ≡ 10)
    × (initialize_cache unreachable (load nothing_set) ≡ ok (memory new_memory_cache))
unfolding program
starts = (refl, refl, refl)

abbrev asks : (at : ℕ) → Happening
asks at = arrives (record {
  method = codes "GET";
  path = codes "/health";
  query = [];
  user_agent = [];
  forwarded_for = [];
  real_ip = codes "10.0.0.3";
  remote_addr = [];
  body = [];
  process_id = [];
  spare_id = [];
  start = at;
  now = at;
  times = record { global = at; created = at; per_ip = at };
  finish = at;
})

abbrev idle : Handler ℕ
idle r ctx x = (x, returned)

abbrev day : List Happening
day = asks 1 ∷ asks 2 ∷ sweeps (7200 * second) ∷ asks (7200 * second) ∷ []

calls_bound_example :
    (happen_all
        (counted (codes "10.0.0.3") idle)
        day
        (new_limiter (load nothing_set) 0, (0, 0))).1.0
      * second
    ≤ per_ip (load nothing_set) * second + (7200 * second - 0) * per_ip (load nothing_set)
unfolding program
calls_bound_example =
    calls_bound (load nothing_set) (codes "10.0.0.3") idle 0 0 (7200 * second) day (omega arith)
      (omega arith)
      (
        (omega arith, omega arith, omega arith),
        (
          (omega arith, omega arith, omega arith),
          (omega arith, ((omega arith, omega arith, omega arith), omega arith)),
        ),
      )

-- A server with one request that is told to stop.
abbrev stopping : Process
stopping = process draining listening 1 (
    log_info (codes "server_start") (codes "Starting AdsTxt Analysis API")
    ∷ starting
    ∷ shutting_down
    ∷ [])

stops :
    Run
      (launched (log_info (codes "server_start") (codes "Starting AdsTxt Analysis API") ∷ []))
      stopping
stops = steps begins (steps accepts (steps signalled rests))

shutdown_races_example :
    ((p : Process) × Run stopping p × (p.exit ≡ some 0) × (p.requests ≡ 0) × (p.closed ≡ true))
    × ((q : Process) × Run stopping q × (q.exit ≡ some 1) × (q.requests ≡ 1) × (q.closed ≡ false))
shutdown_races_example = shutdown_races listening 1 stopping.log

abbrev connects : Text → Option GoError
connects url = none

boot-IsReady_example :
    IsReady (boot connects unreachable (load nothing_set) 0)
    ↔ ((connects (load nothing_set).database_url ≡ none) × HasCache unreachable (load nothing_set))
boot-IsReady_example = boot-IsReady unreachable (load nothing_set) 0 connects
