-- ===== src/Cache/Redis.antt =====
-- internal/cache/redis.go: the cache in Redis. The client and `json.Marshal` are parameters; a command
-- that fails is taken to have left the store as it was.
pub mod Copies
mod Examples
use Prim.Native.String.{String}
use perion_assignment.Common.{ℕ, Option, none, some, ◌++◌, if◌then◌else◌, ℤ, not_positive}
use perion_assignment.Text.Duration.{duration_text}
use perion_assignment.Text.{Text, codes}
use perion_assignment.Models.Heap.{Heap}
use perion_assignment.Models.Errors.{
  GoError, cache_unavailable, plain, wrapped, error_text, Result, ok, err, ◌>>=◌,
}
use perion_assignment.Cache.{Value, text, Service}

-- The commands of `redis.Client` that the cache calls; `ok none` is `redis.Nil`.
pub record Client (R : Type 0) : Type 0 where
  pub get_text : (now : ℕ) → Text → R → Result (Option Text)
  pub set_text : (now : ℕ) → Text → Text → (ttl : ℤ) → R → Result R
  pub del : Text → R → Result R

-- An error under another, `fmt.Errorf("...: %w", err)`.
abbrev pub failed : {A : Type 0} → Text → GoError → Result A
failed prefix e = err (wrapped (prefix ++ error_text e) e)

-- The result with its error under another.
abbrev pub or_failed : {A : Type 0} → Text → Result A → Result A
or_failed prefix (ok a) = ok a
or_failed prefix (err e) = failed prefix e

-- `newRedisCache`, over `redis.ParseURL`, `redis.NewClient` and the answer to a ping.
unfoldable pub new_redis_cache :
    {O R : Type 0}
    → (parse_url : Text → Result O) → (new_client : O → R) → (ping : R → Option GoError) → Text
    → Result R
new_redis_cache parse_url new_client ping url = do
  opts ← or_failed (codes "failed to parse redis URL: ") (parse_url url)
  elim (ping (new_client opts)) [
    | none ↦ ok (new_client opts)
    | some e ↦ failed (codes "failed to connect to redis: ") e
  ]

-- What a read gives: the text, for the caller to unmarshal.
abbrev pub read_text : Result (Option Text) → Result Value
read_text (ok none) = err cache_unavailable
read_text (ok (some data_read)) = ok (text data_read)
read_text (err e) = failed (codes "redis get failed: ") e

module _ {R : Type 0} (client : Client R) (marshal : Heap → Value → Result Text) where
  -- `RedisCache.Get`.
  unfoldable pub redis_get : (now : ℕ) → Text → R → Result Value
  redis_get now key r = read_text (client.get_text now key r)

  -- `RedisCache.Set`; the error's text names the duration, which is left out.
  unfoldable pub redis_set : (now : ℕ) → Text → Value → (ttl : ℤ) → Heap → R → Result R
  redis_set now key value ttl heap r =
      if not_positive ttl
      then err (plain (codes "TTL must be positive, got: " ++ duration_text ttl))
      else or_failed (codes "failed to marshal value: ") (marshal heap value) >>= (λ data_set.
        or_failed (codes "redis set failed: ") (client.set_text now key data_set ttl r))

  -- `RedisCache.Delete`.
  unfoldable pub redis_delete : Text → R → Result R
  redis_delete key r = or_failed (codes "redis delete failed: ") (client.del key r)

  -- The cache in Redis behind the interface.
  abbrev pub redis_service : Service R
  redis_service = record {
    get_value = redis_get;
    set_value = redis_set;
    delete_value = redis_delete;
  }
