-- ===== src/Program/Limits.antt =====
-- What the limits of the configuration promise, through the start of main.go, the limiter and the
-- middlewares.
use perion_assignment.Common.{ℕ, ◌+◌, ◌-◌, ◌*◌, ◌≤◌, List, arith}
use perion_assignment.Text.{Text}
use perion_assignment.Config.{Config}
use perion_assignment.Float.{second}
use perion_assignment.RateLimit.Bucket.{max_capacity}
use perion_assignment.RateLimit.TwoTier.Bounds.{IsHistory, admitted_for-new_two_tier}
use perion_assignment.Http.Middleware.{Handler}
use perion_assignment.Http.Router.Bound.{Happening, history, counted, happen_all, happen_all-le}
use perion_assignment.Program.{rate_of, new_limiter}

-- Both limits of a configuration, per second.
abbrev pub per_ip : Config → ℕ
per_ip cfg = rate_of cfg.per_ip_rate_limit_per_sec

abbrev pub global : Config → ℕ
global cfg = rate_of cfg.global_rate_limit_per_sec

-- With limits of two million at most: of any requests of routes, one after the other at times that do
-- not fall and with sweeps between them, the handler behind the middlewares, whatever it does, is
-- called for a client address no more often than the limit of an address allows for each second of
-- the whole time and for one second more.
pub calls_bound :
    {W : Type 0} (cfg : Config) (ip : Text) (next : Handler W) (w : W) (now until : ℕ)
    (hs : List Happening)
    → global cfg ≤ max_capacity
    → per_ip cfg ≤ max_capacity
    → IsHistory now (history hs) until
    → (happen_all (counted ip next) hs (new_limiter cfg now, (0, w))).1.0 * second
      ≤ per_ip cfg * second + (until - now) * per_ip cfg
unfolding new_limiter
calls_bound cfg ip next w now until hs few few' h =
    let calls = happen_all-le ip next hs (new_limiter cfg now) 0 w in
    let paid =
      admitted_for-new_two_tier (global cfg) (global cfg) (per_ip cfg) (per_ip cfg) now ip
        (history hs) until few few' (omega arith) h in
    omega (arith, calls, paid)
