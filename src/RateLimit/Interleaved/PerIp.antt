-- ===== src/RateLimit/Interleaved/PerIp.antt =====
-- How many calls of one address the limiter admits, in whatever order the steps of all are taken.
use perion_assignment.Common.{
  ℕ, zero, suc, ◌+◌, ◌-◌, ◌*◌, ◌≤◌, ◌≡◌, refl, ◌∙◌, Bool, true, false, Option, none, some, List, [],
  ◌∷◌, if◌then◌else◌, arith, Bool-cases, inl, inr,
}
use perion_assignment.Text.{Text, text_eq, text_eq_iff}
use perion_assignment.Dict.Laws.{get-put}
use perion_assignment.RateLimit.{
  second, half_hour, TokenBucket, TwoTierRateLimiter, allow, new_two_tier,
}
use perion_assignment.RateLimit.Bucket.{max_capacity}
use perion_assignment.RateLimit.TwoTier.{bucket_at, written}
use perion_assignment.RateLimit.TwoTier.Valid.{IsValid, new_two_tier-IsValid}
use perion_assignment.RateLimit.TwoTier.Credit.{
  ip_credit, asked_credit, ip_credit_later, sweep_credit,
}
use perion_assignment.RateLimit.TwoTier.Bounds.{fresh_credit}
use perion_assignment.RateLimit.Interleaved.{
  Calls, idle, Move, asks, settles, gives_back, sweeps, on_global, on_bucket, settle_one, pick,
  give_back, move, run,
}
use perion_assignment.RateLimit.Interleaved.Valid.{
  time_after, InTime, IsSchedule, asked_lem, returned_bucket, on_global-limiter, on_bucket-limiter,
  move_settings, move-IsValid,
}
use perion_assignment.RateLimit.Interleaved.Bound.{IsSchedule-le}

-- How often an address stands in a list.
unfoldable pub times_in : Text → List Text → ℕ
times_in ip [] = 0
times_in ip (other ∷ rest) = (if text_eq other ip then 1 else 0) + times_in ip rest

-- What a step leaves of the credit of an address is paid by its calls that are admitted.
abbrev Pays : (now later until : ℕ) → Text → Calls → Calls → Type 0
Pays now later until ip s s' =
    times_in ip s'.admitted * second + ip_credit later until ip s'.limiter
    ≤ times_in ip s.admitted * second + ip_credit now until ip s.limiter

-- A step that admits nobody and leaves the buckets of the addresses alone.
untouched-Pays :
    (now later until : ℕ) (ip : Text) (s s' : Calls)
    → now ≤ later
    → later ≤ until
    → s'.admitted ≡ s.admitted
    → (g : TokenBucket) × (s'.limiter ≡ record s.limiter { global_bucket = g })
    → Pays now later until ip s s'
untouched-Pays now later until ip s s' h k same (g, e) =
    rw (same, e)
      (omega (
        arith,
        ip_credit_later now later until ip s.limiter (record s.limiter { global_bucket = g }) h k
            refl (refl, refl),
      ))

pub on_global-admitted :
    (ip : Text) (s : Calls) (a : TokenBucket × Bool) → (on_global ip s a).admitted ≡ s.admitted
on_global-admitted ip s (g, true) = refl
on_global-admitted ip s (g, false) = refl

on_bucket-times_in :
    (ip other : Text) (rest : List Text) (s : Calls) (a : TokenBucket × Bool)
    → times_in ip (on_bucket other rest s s.limiter a).admitted
      ≡ (if text_eq other ip then (if a.1 then 1 else 0) else 0) + times_in ip s.admitted
unfolding times_in
on_bucket-times_in ip other rest s (b, true) = refl
on_bucket-times_in ip other rest s (b, false) = ground arith

-- The bucket of the address that settles pays; another address's is left alone.
written-credit :
    (now until t_new t_ip : ℕ) (ip other : Text) (trl : TwoTierRateLimiter)
    → IsValid now trl
    → (now ≤ t_new) × (t_new ≤ t_ip)
    → t_ip ≤ until
    → (let a = allow t_ip (bucket_at other t_new trl) in
        (if text_eq other ip then (if a.1 then 1 else 0) else 0) * second
          + ip_credit t_ip until ip (written other trl trl.global_bucket a.0)
        ≤ ip_credit now until ip trl)
written-credit now until t_new t_ip ip other trl v h k =
    let a = allow t_ip (bucket_at other t_new trl) in
    let paid =
      asked_credit now now t_new t_ip until other trl trl.global_bucket v (omega arith, h.0, h.1)
        k in
    elim (Bool-cases (text_eq other ip)) [
      | inl same ↦ rw (same, ← (text_eq_iff other ip).0 same) (in_tokens a.1 _ _ paid)
      | inr different ↦ rw different (
          omega (
            arith,
            ip_credit_later now t_ip until ip trl (written other trl trl.global_bucket a.0)
                (omega arith) k (get-put ip other a.0 trl.ip_buckets ∙ rw different) (refl, refl),
          ))
    ]
  where
    in_tokens :
        (b : Bool) (c d : ℕ)
        → (if b then second else 0) + c ≤ d
        → (if b then 1 else 0) * second + c ≤ d
    in_tokens true c d h = omega arith
    in_tokens false c d h = omega arith

settled-Pays :
    (now until t_new t_ip : ℕ) (ip : Text) (s : Calls) (found : Option (Text × List Text))
    → IsValid now s.limiter
    → (now ≤ t_new) × (t_new ≤ t_ip)
    → t_ip ≤ until
    → Pays now t_ip until ip s (settle_one t_new t_ip s found)
unfolding settle_one
settled-Pays now until t_new t_ip ip s none v h k =
    untouched-Pays now t_ip until ip s s (omega arith) k refl (s.limiter.global_bucket, refl)
settled-Pays now until t_new t_ip ip s (some (other, rest)) v h k =
    let a = allow t_ip (bucket_at other t_new s.limiter) in
    rw
      (
        asked_lem t_new t_ip other rest s,
        on_bucket-times_in ip other rest s a,
        on_bucket-limiter other rest s a,
      )
      (omega (arith, written-credit now until t_new t_ip ip other s.limiter v h k))

given_back-Pays :
    (now until : ℕ) (ip : Text) (s : Calls) (n : ℕ)
    → IsValid now s.limiter
    → now ≤ until
    → Pays now now until ip s (give_back s n)
unfolding give_back
given_back-Pays now until ip s zero v k = omega arith
given_back-Pays now until ip s (suc n) v k =
    let (g, e, _, _, _) = returned_bucket s.limiter v.global_within in
    untouched-Pays now now until ip s (give_back s (suc n)) (omega arith) k refl (g, e)

move-Pays :
    (now until : ℕ) (ip : Text) (m : Move) (s : Calls)
    → IsValid now s.limiter
    → s.limiter.per_ip_capacity * second ≤ half_hour * s.limiter.per_ip_rate
    → InTime now m
    → time_after now m ≤ until
    → Pays now (time_after now m) until ip s (move m s)
unfolding move
move-Pays now until ip (asks other later) s v cheap h k =
    let a = allow later s.limiter.global_bucket in
    untouched-Pays now later until ip s (on_global other s a) h k (on_global-admitted other s a)
      (a.0, on_global-limiter other s a)
move-Pays now until ip (settles n t_new t_ip) s v cheap h k =
    settled-Pays now until t_new t_ip ip s (pick n s.holding) v h k
move-Pays now until ip gives_back s v cheap h k = given_back-Pays now until ip s s.returning v k
move-Pays now until ip (sweeps later) s v cheap h k =
    omega (arith, sweep_credit now later until ip s.limiter v cheap h k)

run-le :
    (now : ℕ) (ip : Text) (s : Calls) (moves : List Move) (until : ℕ)
    → IsValid now s.limiter
    → s.limiter.per_ip_capacity * second ≤ half_hour * s.limiter.per_ip_rate
    → IsSchedule now moves until
    → times_in ip (run moves s).admitted * second
      ≤ times_in ip s.admitted * second + ip_credit now until ip s.limiter
unfolding run
run-le now ip s [] until v cheap h = omega arith
run-le now ip s (m ∷ moves) until v cheap h =
    let later = IsSchedule-le (time_after now m) moves until h.1 in
    let (c, r) = move_settings m s v.global_within in
    omega (
      arith,
      move-Pays now until ip m s v cheap h.0 later,
      run-le (time_after now m) ip (move m s) moves until (move-IsValid now m s v h.0)
          (rw (c, r) cheap) h.1,
    )

-- However the steps of calls that run at the same time follow one another, at times that do not fall,
-- a new limiter admits no more calls of an address than its capacity and what its rate gives in the
-- whole time, provided that a bucket fills up in half an hour, as the sweeps assume, and that no
-- capacity is above two million.
pub run_for-bound :
    (gc gr ic ir now : ℕ) (ip : Text) (moves : List Move) (until : ℕ)
    → gc ≤ max_capacity
    → ic ≤ max_capacity
    → ic * second ≤ half_hour * ir
    → IsSchedule now moves until
    → times_in ip (run moves (idle (new_two_tier gc gr ic ir now))).admitted * second
      ≤ ic * second + (until - now) * ir
run_for-bound gc gr ic ir now ip moves until few few' cheap h =
    let start = idle (new_two_tier gc gr ic ir now) in
    let none_yet : times_in ip start.admitted ≡ 0 = unfold times_in in refl in
    omega (
      arith,
      none_yet,
      fresh_credit gc gr ic ir now until ip,
      run-le now ip start moves until (new_two_tier-IsValid gc gr ic ir now few few')
          (unfold new_two_tier in cheap) h,
    )
