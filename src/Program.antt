-- ===== src/Program.antt =====
-- main.go: what the program starts with, from its environment on.
pub mod Limits
pub mod Lifecycle
pub mod Boots
pub mod Requests
mod Examples
use Prim.Native.String.{String}
use perion_assignment.Common.{
  ℕ, zero, suc, ◌+◌, Bool, true, false, Option, none, some, List, [], ◌∷◌, ◌++◌, if◌then◌else◌, ℤ,
  pos, negsuc,
}
use perion_assignment.Text.{Text, codes, text_eq}
use perion_assignment.Models.Errors.{error_text, GoError, plain, Result, ok, err, ◌>>=◌}
use perion_assignment.Models.Log.{LogCall, high, log_info, log_error}
use perion_assignment.Cache.{MemoryCache, new_memory_cache}
use perion_assignment.RateLimit.{TwoTierRateLimiter, new_two_tier}
use perion_assignment.Config.{Config, load, in_seconds}

-- The two implementations of `cache.Service`.
pub data AnyCache (R : Type 0) : Type 0 where
  redis : R → AnyCache R
  memory : MemoryCache → AnyCache R

abbrev pub in_redis : {R : Type 0} → Result R → Result (AnyCache R)
in_redis (ok r) = ok (redis r)
in_redis (err e) = err e

-- `initializeCache`, over `cache.NewRedisCache`.
unfoldable pub initialize_cache : {R : Type 0} → (Text → Result R) → Config → Result (AnyCache R)
initialize_cache new_redis cfg =
    if text_eq cfg.cache_type (codes "redis")
    then in_redis (new_redis cfg.redis_url)
    else if text_eq cfg.cache_type (codes "memory")
    then ok (memory new_memory_cache)
    else err (plain (codes "unsupported cache type: " ++ cfg.cache_type))

-- A rate as the limiter's model has it: a negative one admits nothing, as zero does.
abbrev pub rate_of : ℤ → ℕ
rate_of (pos n) = n
rate_of (negsuc n) = 0

-- The limiter that `main` makes, at a time.
unfoldable pub new_limiter : Config → (now : ℕ) → TwoTierRateLimiter
new_limiter cfg now =
    let global = rate_of cfg.global_rate_limit_per_sec in
    let per_ip = rate_of cfg.per_ip_rate_limit_per_sec in
    new_two_tier global global per_ip per_ip now

-- What `main` has made of its configuration before it makes the server.
pub record Program (R : Type 0) : Type 0 where
  pub cache : AnyCache R
  pub cache_ttl : ℤ
  pub fetch_timeout : ℤ
  pub limiter : TwoTierRateLimiter
  pub max_concurrent_fetches : ℤ
  pub addr : Text

-- The start, or the error that ends it.
unfoldable pub start : {R : Type 0} → (Text → Result R) → Config → (now : ℕ) → Result (Program R)
unfolding initialize_cache
start new_redis cfg now = do
  cache ← initialize_cache new_redis cfg
  ok (record {
    cache = cache;
    cache_ttl = cfg.cache_ttl;
    fetch_timeout = in_seconds cfg.fetch_timeout_seconds;
    limiter = new_limiter cfg now;
    max_concurrent_fetches = cfg.max_concurrent_fetches;
    addr = codes ":" ++ cfg.port;
  })

-- What `main` comes to before it makes the server: it ends fatally, or it has its parts; with its log.
pub data Boot (R : Type 0) : Type 0 where
  fatal_boot : (why : Text) → List LogCall → Boot R
  ready : Program R → List LogCall → Boot R

abbrev pub first_call : LogCall
first_call = log_info (codes "server_start") (codes "Starting AdsTxt Analysis API")

abbrev pub on_start : {R : Type 0} → Result (Program R) → Boot R
on_start (ok program) = ready program (first_call ∷ [])
on_start (err e) = fatal_boot (codes "Failed to initialize cache: " ++ error_text e) (
    first_call ∷ log_error (codes "cache_init") [] (codes "Failed to initialize cache") e high ∷ [])

abbrev pub on_connection :
    {R : Type 0} → (Text → Result R) → Config → (now : ℕ) → Option GoError → Boot R
on_connection new_redis cfg now none = on_start (start new_redis cfg now)
on_connection new_redis cfg now (some e) =
    fatal_boot (codes "Failed to connect to Supabase: " ++ error_text e) []

-- `main` up to its handler, over the error of the connection to the log's database.
unfoldable pub boot :
    {R : Type 0}
    → (connect : Text → Option GoError) → (Text → Result R)
    → Config
    → (now : ℕ) → Boot R
boot connect new_redis cfg now = on_connection new_redis cfg now (connect cfg.database_url)
