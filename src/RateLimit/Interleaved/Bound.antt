-- ===== src/RateLimit/Interleaved/Bound.antt =====
-- How many calls the limiter admits, in whatever order their steps are taken.
use perion_assignment.Common.{
  ℕ, zero, suc, ◌+◌, ◌-◌, ◌*◌, ◌≤◌, ◌≡◌, refl, ◌∙◌, ap, Bool, true, false, Option, none, some, List,
  [], ◌∷◌, if◌then◌else◌, arith, length,
}
use perion_assignment.Text.{Text}
use perion_assignment.RateLimit.{second, TokenBucket, allow, cleanup_ip_buckets, new_two_tier}
use perion_assignment.RateLimit.Bucket.{max_capacity, IsWithin, credit, allow-credit}
use perion_assignment.RateLimit.TwoTier.{bucket_at}
use perion_assignment.RateLimit.TwoTier.Valid.{IsValid, new_two_tier-IsValid}
use perion_assignment.RateLimit.Interleaved.{
  Calls, idle, Move, asks, settles, gives_back, sweeps, on_global, on_bucket, settle_one, pick,
  picked_behind, give_back, move, run,
}
use perion_assignment.RateLimit.Interleaved.Valid.{
  time_after, InTime, IsSchedule, asked_lem, settled-limiter, returned_bucket, move-IsValid,
}

-- The tokens that were taken from the global bucket and may not come back.
abbrev pub spent : Calls → ℕ
spent s = length s.admitted + length s.holding + s.returning

-- What a step leaves of the global bucket is paid by the tokens that are spent.
abbrev Pays : (until : ℕ) → Calls → Calls → Type 0
Pays until s s' =
    spent s' * second + credit until s'.limiter.global_bucket
    ≤ spent s * second + credit until s.limiter.global_bucket

on_global-Pays :
    (until : ℕ) (ip : Text) (s : Calls) (a : TokenBucket × Bool)
    → (if a.1 then second else 0) + credit until a.0 ≤ credit until s.limiter.global_bucket
    → Pays until s (on_global ip s a)
on_global-Pays until ip s (g, true) h = omega arith
on_global-Pays until ip s (g, false) h = omega arith

-- Of the calls that hold a token, one fewer is left.
abbrev Fewer : ℕ → Option (Text × List Text) → Type 0
Fewer n none = Unit {0}
Fewer n (some (ip, rest)) = n ≡ suc (length rest)

behind-Fewer :
    (n : ℕ) (ip : Text) (found : Option (Text × List Text))
    → Fewer n found
    → Fewer (suc n) (picked_behind ip found)
behind-Fewer n ip none h = tt
behind-Fewer n ip (some (found, rest)) h = ap suc h

pick-Fewer : (k : ℕ) (l : List Text) → Fewer (length l) (pick k l)
unfolding pick
pick-Fewer k [] = tt
pick-Fewer zero (ip ∷ rest) = refl
pick-Fewer (suc k) (ip ∷ rest) = behind-Fewer (length rest) ip (pick k rest) (pick-Fewer k rest)

on_bucket-spent :
    (ip : Text) (rest : List Text) (s : Calls) (a : TokenBucket × Bool)
    → length s.holding ≡ suc (length rest)
    → spent (on_bucket ip rest s s.limiter a) ≡ spent s
on_bucket-spent ip rest s (b, true) h = omega arith
on_bucket-spent ip rest s (b, false) h = omega arith

settled-Pays :
    (until t_new t_ip : ℕ) (s : Calls) (found : Option (Text × List Text))
    → Fewer (length s.holding) found
    → Pays until s (settle_one t_new t_ip s found)
settled-Pays until t_new t_ip s none h = unfold settle_one in omega arith
settled-Pays until t_new t_ip s (some (ip, rest)) h =
    let spends : spent (settle_one t_new t_ip s (some (ip, rest))) ≡ spent s =
      unfold settle_one in
      ap spent (asked_lem t_new t_ip ip rest s)
      ∙ on_bucket-spent ip rest s (allow t_ip (bucket_at ip t_new s.limiter)) h in
    rw (spends, settled-limiter t_new t_ip ip rest s) (omega arith)

given_back-Pays :
    (until : ℕ) (s : Calls) (n : ℕ)
    → IsWithin s.limiter.global_bucket
    → s.returning ≡ n
    → Pays until s (give_back s n)
unfolding give_back
given_back-Pays until s zero w h = omega arith
given_back-Pays until s (suc n) w h =
    let (g, e, _, _, pays) = returned_bucket s.limiter w in rw (e, h) (omega (arith, pays until))

move-Pays :
    (now until : ℕ) (m : Move) (s : Calls)
    → IsValid now s.limiter
    → InTime now m
    → time_after now m ≤ until
    → Pays until s (move m s)
unfolding move cleanup_ip_buckets
move-Pays now until (asks ip later) s v h k =
    on_global-Pays until ip s (allow later s.limiter.global_bucket) (
      allow-credit later until s.limiter.global_bucket (omega (arith, v.global_past)) k
        v.global_within)
move-Pays now until (settles n t_new t_ip) s v h k =
    settled-Pays until t_new t_ip s (pick n s.holding) (pick-Fewer n s.holding)
move-Pays now until gives_back s v h k = given_back-Pays until s s.returning v.global_within refl
move-Pays now until (sweeps later) s v h k = omega arith

pub IsSchedule-le :
    (now : ℕ) (moves : List Move) (until : ℕ) → IsSchedule now moves until → now ≤ until
IsSchedule-le now [] until h = h
IsSchedule-le now (asks ip later ∷ moves) until h =
    omega (arith, IsSchedule-le later moves until h.1)
IsSchedule-le now (settles k t_new t_ip ∷ moves) until h =
    omega (arith, IsSchedule-le t_ip moves until h.1)
IsSchedule-le now (gives_back ∷ moves) until h = IsSchedule-le now moves until h.1
IsSchedule-le now (sweeps later ∷ moves) until h =
    omega (arith, IsSchedule-le later moves until h.1)

run-le :
    (now : ℕ) (s : Calls) (moves : List Move) (until : ℕ)
    → IsValid now s.limiter
    → IsSchedule now moves until
    → length (run moves s).admitted * second
      ≤ spent s * second + credit until s.limiter.global_bucket
unfolding run
run-le now s [] until v h = omega arith
run-le now s (m ∷ moves) until v h =
    let later = IsSchedule-le (time_after now m) moves until h.1 in
    omega (
      arith,
      move-Pays now until m s v h.0 later,
      run-le (time_after now m) (move m s) moves until (move-IsValid now m s v h.0) h.1,
    )

-- However the steps of calls that run at the same time follow one another, at times that do not fall,
-- a new limiter admits no more of them than its global capacity and what its global rate gives in the
-- whole time, provided that no capacity is above two million.
pub run-bound :
    (gc gr ic ir now : ℕ) (moves : List Move) (until : ℕ)
    → gc ≤ max_capacity
    → ic ≤ max_capacity
    → IsSchedule now moves until
    → length (run moves (idle (new_two_tier gc gr ic ir now))).admitted * second
      ≤ gc * second + (until - now) * gr
unfolding new_two_tier
run-bound gc gr ic ir now moves until few few' h = omega (
  arith,
  run-le now (idle (new_two_tier gc gr ic ir now)) moves until
      (new_two_tier-IsValid gc gr ic ir now few few') h,
)
