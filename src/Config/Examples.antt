-- ===== src/Config/Examples.antt =====
-- Runs of internal/config/config.go, and the theorems on its numbers at them.
use perion_assignment.Common.{
  ◌-◌, ◌*◌, ◌^◌, ◌≡◌, refl, none, some, [], if◌then◌else◌, ltb, pos, negsuc, neg, arith,
}
use perion_assignment.Text.{Text, codes, text_eq, decimal}
use perion_assignment.Float.{second}
use perion_assignment.Config.{scan, atoi, in_seconds, get_env, get_int_env, get_duration_env, load}
use perion_assignment.Config.Numbers.{get_duration_env_lem}

-- What the runs unfold.
numbers : Unit {0}
unfolding scan atoi in_seconds get_env get_int_env get_duration_env load text_eq decimal
numbers = tt

-- An environment with two variables.
abbrev environment : Text → Text
environment key =
    if text_eq key (codes "CACHE_TTL")
    then decimal 10_000_000_000
    else if text_eq key (codes "PER_IP_RATE_LIMIT_PER_SEC")
    then codes "-3"
    else []

runs :
    (atoi (codes "42") ≡ some (pos 42))
    × (atoi (codes "+7") ≡ some (pos 7))
    × (atoi (codes "-3") ≡ some (negsuc 2))
    × (atoi (codes "4x") ≡ none)
    × (atoi (codes "") ≡ none)
    × (atoi (codes "9223372036854775808") ≡ none)
    × ((load environment).port ≡ codes "8080")
    × ((load environment).cache_ttl ≡ neg (2 ^ 64 - 10_000_000_000 * second))
    × ((load environment).per_ip_rate_limit_per_sec ≡ negsuc 2)
    × ((load environment).global_rate_limit_per_sec ≡ pos 100)
unfolding numbers
runs = (refl, refl, refl, refl, refl, refl, refl, refl, refl, refl)

get_duration_env_lem_example : get_duration_env environment (codes "CACHE_TTL") (pos 5) ≡ (
    if ltb (10_000_000_000 * second) (2 ^ 63)
    then pos (10_000_000_000 * second)
    else neg (2 ^ 64 - 10_000_000_000 * second))
unfolding text_eq
get_duration_env_lem_example =
    get_duration_env_lem environment (codes "CACHE_TTL") (pos 5) 10_000_000_000 refl (omega arith)
