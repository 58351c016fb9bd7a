-- ===== src/RateLimit/TwoTier/Bounds.antt =====
-- How many requests the two-tier limiter admits in a stretch of time, with the sweeps of its
-- cleanup between them.
use perion_assignment.Common.{
  ℕ, ◌+◌, ◌-◌, ◌*◌, ◌≤◌, ◌≡◌, refl, Bool, false, List, [], ◌∷◌, arith, if◌then◌else◌, Bool-cases,
  inl, inr,
}
use perion_assignment.Text.{Text}
use perion_assignment.Dict.{get}
use perion_assignment.RateLimit.{
  TwoTierRateLimiter, allow_two_tier, cleanup_ip_buckets, new_two_tier,
}
use perion_assignment.Common.{◌&&◌}
use perion_assignment.Text.{text_eq, text_eq_iff}
use perion_assignment.RateLimit.{second, half_hour}
use perion_assignment.RateLimit.Bucket.{max_capacity, IsWithin, credit, refill-credit, allow-credit}
use perion_assignment.RateLimit.TwoTier.{
  Outcome, global_refused, admitted, ip_refused, allow-Outcome,
}
use perion_assignment.RateLimit.TwoTier.Valid.{
  IsValid, InOrder, allow_two_tier-IsValid, cleanup-IsValid, new_two_tier-IsValid,
}
use perion_assignment.RateLimit.TwoTier.Credit.{
  ip_credit, Outcome-credit, Outcome-other, sweep_credit, Outcome_settings,
}

-- What happens to a limiter: a request, with the three readings of the clock, or a sweep.
pub data Event : Type 0 where
  request : (ip : Text) (t_global t_new t_ip : ℕ) → Event
  sweep : (now : ℕ) → Event

unfoldable pub step : Event → TwoTierRateLimiter → TwoTierRateLimiter × Bool
step (request ip t_global t_new t_ip) trl = allow_two_tier t_global t_new t_ip ip trl
step (sweep now) trl = (cleanup_ip_buckets now trl, false)

abbrev pub finished : Event → ℕ
finished (request ip t_global t_new t_ip) = t_ip
finished (sweep now) = now

abbrev pub Follows : ℕ → Event → Type 0
Follows now (request ip t_global t_new t_ip) = InOrder now t_global t_new t_ip
Follows now (sweep later) = now ≤ later

abbrev pub IsHistory : ℕ → List Event → ℕ → Type 0
IsHistory now [] until = now ≤ until
IsHistory now (e ∷ events) until = Follows now e × IsHistory (finished e) events until

abbrev pub is_for : Text → Event → Bool
is_for ip (request other t_global t_new t_ip) = text_eq other ip
is_for ip (sweep now) = false

-- How many requests of an address are admitted, and how many of all addresses.
unfoldable pub admitted_for : Text → TwoTierRateLimiter → List Event → ℕ
admitted_for ip trl [] = 0
admitted_for ip trl (e ∷ events) =
    (if (step e trl).1 && is_for ip e then 1 else 0) + admitted_for ip (step e trl).0 events

pub admitted_all : TwoTierRateLimiter → List Event → ℕ
admitted_all trl [] = 0
admitted_all trl (e ∷ events) =
    (if (step e trl).1 then 1 else 0) + admitted_all (step e trl).0 events

step_settings :
    (now : ℕ) (e : Event) (trl : TwoTierRateLimiter)
    → IsValid now trl
    → Follows now e
    → ((step e trl).0.per_ip_capacity ≡ trl.per_ip_capacity)
      × ((step e trl).0.per_ip_rate ≡ trl.per_ip_rate)
unfolding step cleanup_ip_buckets
step_settings now (request ip t_global t_new t_ip) trl v h =
    Outcome_settings t_global t_new t_ip ip trl
      (allow-Outcome t_global t_new t_ip ip trl (omega (arith, v.global_past)) v.global_within)
step_settings now (sweep later) trl v h = (refl, refl)

step-IsValid :
    (now : ℕ) (e : Event) (trl : TwoTierRateLimiter)
    → IsValid now trl
    → Follows now e
    → IsValid (finished e) (step e trl).0
unfolding step
step-IsValid now (request ip t_global t_new t_ip) trl v h =
    allow_two_tier-IsValid now t_global t_new t_ip ip trl v h
step-IsValid now (sweep later) trl v h = cleanup-IsValid now later trl v h

step_credit :
    (now until : ℕ) (ip : Text) (e : Event) (trl : TwoTierRateLimiter)
    → IsValid now trl
    → trl.per_ip_capacity * second ≤ half_hour * trl.per_ip_rate
    → Follows now e
    → finished e ≤ until
    → (if (step e trl).1 && is_for ip e then second else 0)
        + ip_credit (finished e) until ip (step e trl).0
      ≤ ip_credit now until ip trl
unfolding step
step_credit now until ip (request other t_global t_new t_ip) trl v cheap h k =
    let o =
      allow-Outcome t_global t_new t_ip other trl (omega (arith, v.global_past)) v.global_within in
    elim (Bool-cases (text_eq other ip)) [
      | inl same ↦
          let e = (text_eq_iff other ip).0 same in
          let paid = Outcome-credit now t_global t_new t_ip until other trl o v h k in
          rw same (ground (arith, rw e at paid))
      | inr different ↦ rw different (
          ground (
            arith,
            Outcome-other now t_global t_new t_ip until ip other trl o different (omega arith) k,
          ))
    ]
step_credit now until ip (sweep later) trl v cheap h k =
    omega (arith, sweep_credit now later until ip trl v cheap h k)

IsHistory-le :
    (now : ℕ) (events : List Event) (until : ℕ) → IsHistory now events until → now ≤ until
IsHistory-le now [] until h = h
IsHistory-le now (request ip t_global t_new t_ip ∷ events) until h =
    omega (arith, IsHistory-le t_ip events until h.1)
IsHistory-le now (sweep later ∷ events) until h = omega (arith, IsHistory-le later events until h.1)

admitted_for_bound :
    (now : ℕ) (ip : Text) (trl : TwoTierRateLimiter) (events : List Event) (until : ℕ)
    → IsValid now trl
    → trl.per_ip_capacity * second ≤ half_hour * trl.per_ip_rate
    → IsHistory now events until
    → admitted_for ip trl events * second ≤ ip_credit now until ip trl
unfolding admitted_for
admitted_for_bound now ip trl [] until v cheap h = omega arith
admitted_for_bound now ip trl (e ∷ events) until v cheap h =
    let later = IsHistory-le (finished e) events until h.1 in
    let paid = step_credit now until ip e trl v cheap h.0 later in
    let (c, r) = step_settings now e trl v h.0 in
    let rest =
      admitted_for_bound (finished e) ip (step e trl).0 events until (step-IsValid now e trl v h.0)
        (rw (c, r) cheap) h.1 in
    ground arith

pub fresh_credit :
    (gc gr ic ir now until : ℕ) (ip : Text)
    → ip_credit now until ip (new_two_tier gc gr ic ir now) ≡ ic * second + (until - now) * ir
unfolding ip_credit new_two_tier get
fresh_credit gc gr ic ir now until ip = refl

-- Of any history of requests and sweeps on a new limiter, an address is admitted no more often than
-- its capacity and what its rate gives in the whole time, provided that a bucket fills up in half
-- an hour, as the sweeps assume, and that no capacity is above two million.
pub admitted_for-new_two_tier :
    (gc gr ic ir now : ℕ) (ip : Text) (events : List Event) (until : ℕ)
    → gc ≤ max_capacity
    → ic ≤ max_capacity
    → ic * second ≤ half_hour * ir
    → IsHistory now events until
    → admitted_for ip (new_two_tier gc gr ic ir now) events * second
      ≤ ic * second + (until - now) * ir
admitted_for-new_two_tier gc gr ic ir now ip events until few few' cheap h =
    rw (← fresh_credit gc gr ic ir now until ip) (
      admitted_for_bound now ip (new_two_tier gc gr ic ir now) events until
        (new_two_tier-IsValid gc gr ic ir now few few') (unfold new_two_tier in cheap) h)

-- The global bucket pays for each request that is admitted, and for no other.
Outcome-global :
    (t_global t_new t_ip until : ℕ) (ip : Text) (trl : TwoTierRateLimiter)
    {r : TwoTierRateLimiter × Bool}
    → Outcome t_global t_new t_ip ip trl r
    → trl.global_bucket.last_refill ≤ t_global
    → t_global ≤ until
    → IsWithin trl.global_bucket
    → (if r.1 then second else 0) + credit until r.0.global_bucket ≤ credit until trl.global_bucket
Outcome-global t_global t_new t_ip until ip trl (global_refused _ e) h k w =
    rw e (omega (arith, refill-credit t_global until trl.global_bucket h k w))
Outcome-global t_global t_new t_ip until ip trl (admitted given _ e) h k w =
    rw e (rw given at (allow-credit t_global until trl.global_bucket h k w))
Outcome-global t_global t_new t_ip until ip trl (ip_refused _ _ e) h k w =
    rw e (omega (arith, refill-credit t_global until trl.global_bucket h k w))

step_global :
    (now until : ℕ) (e : Event) (trl : TwoTierRateLimiter)
    → IsValid now trl
    → Follows now e
    → finished e ≤ until
    → (if (step e trl).1 then second else 0) + credit until (step e trl).0.global_bucket
      ≤ credit until trl.global_bucket
unfolding step cleanup_ip_buckets
step_global now until (request ip t_global t_new t_ip) trl v h k =
    let past : trl.global_bucket.last_refill ≤ t_global = omega (arith, v.global_past) in
    Outcome-global t_global t_new t_ip until ip trl
      (allow-Outcome t_global t_new t_ip ip trl past v.global_within) past (omega arith)
      v.global_within
step_global now until (sweep later) trl v h k = omega arith

-- Of any history of requests and sweeps, a valid limiter admits in all no more requests than the
-- tokens of its global bucket and what the global rate gives from that bucket's last refill on.
pub admitted_all_bound :
    (now : ℕ) (trl : TwoTierRateLimiter) (events : List Event) (until : ℕ)
    → IsValid now trl
    → IsHistory now events until
    → admitted_all trl events * second ≤ credit until trl.global_bucket
unfolding admitted_all
admitted_all_bound now trl [] until v h = omega arith
admitted_all_bound now trl (e ∷ events) until v h =
    let later = IsHistory-le (finished e) events until h.1 in
    let paid = step_global now until e trl v h.0 later in
    let rest =
      admitted_all_bound (finished e) (step e trl).0 events until (step-IsValid now e trl v h.0)
        h.1 in
    ground arith
