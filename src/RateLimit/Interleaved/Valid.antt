-- ===== src/RateLimit/Interleaved/Valid.antt =====
-- The invariant of the limiter, which every step of interleaved calls keeps.
use perion_assignment.Common.{
  ℕ, zero, suc, ◌+◌, ◌≤◌, ◌≡◌, refl, ◌∙◌, ap, Bool, true, false, Option, none, some, List, [], ◌∷◌,
  arith, Bool-cases, inl, inr, Option-cases, ltb, ltb→lt,
}
use perion_assignment.Text.{Text}
use perion_assignment.Dict.{get, put}
use perion_assignment.Dict.Laws.{put-put}
use perion_assignment.RateLimit.{
  second, TokenBucket, TwoTierRateLimiter, allow, get_or_create_ip_bucket, return_global_token,
  cleanup_ip_buckets,
}
use perion_assignment.RateLimit.Bucket.{IsWithin, credit, allow_fields}
use perion_assignment.RateLimit.TwoTier.{bucket_at, bucket_or_new, written}
use perion_assignment.RateLimit.TwoTier.Valid.{
  IsBucket, IsValid, bucket_at-IsBucket, allow-IsBucket, written-IsValid, later-IsValid,
  cleanup-IsValid,
}
use perion_assignment.RateLimit.Interleaved.{
  Calls, Move, asks, settles, gives_back, sweeps, on_global, on_bucket, asked, settle_one, pick,
  give_back, move,
}

-- The time after a step, the order of the clock readings in it, and steps at times that do not fall.
abbrev pub time_after : ℕ → Move → ℕ
time_after now (asks ip later) = later
time_after now (settles k t_new t_ip) = t_ip
time_after now gives_back = now
time_after now (sweeps later) = later

abbrev pub InTime : ℕ → Move → Type 0
InTime now (asks ip later) = now ≤ later
InTime now (settles k t_new t_ip) = (now ≤ t_new) × (t_new ≤ t_ip)
InTime now gives_back = Unit {0}
InTime now (sweeps later) = now ≤ later

abbrev pub IsSchedule : ℕ → List Move → ℕ → Type 0
IsSchedule now [] until = now ≤ until
IsSchedule now (m ∷ moves) until = InTime now m × IsSchedule (time_after now m) moves until

-- A call's bucket, found or new, is asked and written back.
pub asked_lem :
    (t_new t_ip : ℕ) (ip : Text) (rest : List Text) (s : Calls)
    → asked t_ip ip rest s (get_or_create_ip_bucket ip t_new s.limiter)
      ≡ on_bucket ip rest s s.limiter (allow t_ip (bucket_at ip t_new s.limiter))
unfolding get_or_create_ip_bucket bucket_at
asked_lem t_new t_ip ip rest s = elim (Option-cases (get ip s.limiter.ip_buckets)) [
  | inl absent ↦
      rw absent (
        twice (bucket_or_new s.limiter t_new none)
          (allow t_ip (bucket_or_new s.limiter t_new none)))
  | inr (tb, found) ↦ rw found refl
]
  where
    twice :
        (b : TokenBucket) (a : TokenBucket × Bool)
        → on_bucket ip rest s (record s.limiter { ip_buckets = put ip b s.limiter.ip_buckets }) a
          ≡ on_bucket ip rest s s.limiter a
    twice b (c, true) = rw (put-put ip c b s.limiter.ip_buckets) refl
    twice b (c, false) = rw (put-put ip c b s.limiter.ip_buckets) refl

pub on_global-limiter :
    (ip : Text) (s : Calls) (a : TokenBucket × Bool)
    → (on_global ip s a).limiter ≡ record s.limiter { global_bucket = a.0 }
on_global-limiter ip s (g, true) = refl
on_global-limiter ip s (g, false) = refl

pub on_bucket-limiter :
    (ip : Text) (rest : List Text) (s : Calls) (a : TokenBucket × Bool)
    → (on_bucket ip rest s s.limiter a).limiter ≡ written ip s.limiter s.limiter.global_bucket a.0
on_bucket-limiter ip rest s (b, true) = refl
on_bucket-limiter ip rest s (b, false) = refl

pub settled-limiter :
    (t_new t_ip : ℕ) (ip : Text) (rest : List Text) (s : Calls)
    → (settle_one t_new t_ip s (some (ip, rest))).limiter
      ≡ written ip s.limiter s.limiter.global_bucket (allow t_ip (bucket_at ip t_new s.limiter)).0
unfolding settle_one
settled-limiter t_new t_ip ip rest s =
    ap (λ (c : Calls). c.limiter) (asked_lem t_new t_ip ip rest s)
    ∙ on_bucket-limiter ip rest s (allow t_ip (bucket_at ip t_new s.limiter))

-- A token that is given back goes to a bucket that has room.
pub returned_bucket :
    (trl : TwoTierRateLimiter)
    → IsWithin trl.global_bucket
    → (g : TokenBucket) × (return_global_token trl ≡ record trl { global_bucket = g })
      × IsWithin g
      × (g.last_refill ≡ trl.global_bucket.last_refill)
      × ((until : ℕ) → credit until g ≤ second + credit until trl.global_bucket)
unfolding return_global_token
returned_bucket trl w =
    elim (Bool-cases (ltb trl.global_bucket.tokens trl.global_bucket.capacity)) [
      | inl room ↦ rw room (
        record trl.global_bucket { tokens = trl.global_bucket.tokens + 1 },
        refl,
        (omega (arith, ltb→lt _ _ room), omega arith),
        refl,
        (λ until. omega arith),
      )
      | inr full ↦ rw full (trl.global_bucket, refl, w, refl, (λ until. omega arith))
    ]

pub move-IsValid :
    (now : ℕ) (m : Move) (s : Calls)
    → IsValid now s.limiter
    → InTime now m
    → IsValid (time_after now m) (move m s).limiter
unfolding move settle_one give_back
move-IsValid now (asks ip later) s v h =
    let f =
      allow_fields later s.limiter.global_bucket (omega (arith, v.global_past)) v.global_within in
    rw (on_global-limiter ip s (allow later s.limiter.global_bucket))
      (later-IsValid now later s.limiter _ v h (f.3, f.2))
move-IsValid now (settles k t_new t_ip) s v h = go (pick k s.holding)
  where
    past : s.limiter.global_bucket.last_refill ≤ t_ip
    past = omega (arith, v.global_past)

    bucket :
        (ip : Text)
        → IsBucket s.limiter.per_ip_capacity s.limiter.per_ip_rate t_ip
            (allow t_ip (bucket_at ip t_new s.limiter)).0
    bucket ip =
        allow-IsBucket _ _ t_new t_ip (bucket_at ip t_new s.limiter) h.1
          (bucket_at-IsBucket ip now t_new s.limiter v h.0)

    go : (found : Option (Text × List Text)) → IsValid t_ip (settle_one t_new t_ip s found).limiter
    go none =
        later-IsValid now t_ip s.limiter s.limiter.global_bucket v (omega arith)
          (v.global_within, past)
    go (some (ip, rest)) = rw (settled-limiter t_new t_ip ip rest s) (
        written-IsValid now t_ip ip s.limiter _ _ v (omega arith) (v.global_within, past)
          (bucket ip))
move-IsValid now gives_back s v h = go s.returning
  where
    go : (n : ℕ) → IsValid now (give_back s n).limiter
    go zero = v
    go (suc n) =
        let (g, e, w, last, pays) = returned_bucket s.limiter v.global_within in
        rw e (
          later-IsValid now now s.limiter g v (omega arith) (w, omega (arith, v.global_past, last)))
move-IsValid now (sweeps later) s v h = cleanup-IsValid now later s.limiter v h

-- No step changes the settings of the addresses' buckets.
pub move_settings :
    (m : Move) (s : Calls)
    → IsWithin s.limiter.global_bucket
    → ((move m s).limiter.per_ip_capacity ≡ s.limiter.per_ip_capacity)
      × ((move m s).limiter.per_ip_rate ≡ s.limiter.per_ip_rate)
unfolding move settle_one give_back cleanup_ip_buckets
move_settings (asks ip later) s w =
    rw (on_global-limiter ip s (allow later s.limiter.global_bucket)) (refl, refl)
move_settings (settles k t_new t_ip) s w = go (pick k s.holding)
  where
    go :
        (found : Option (Text × List Text))
        → ((settle_one t_new t_ip s found).limiter.per_ip_capacity ≡ s.limiter.per_ip_capacity)
          × ((settle_one t_new t_ip s found).limiter.per_ip_rate ≡ s.limiter.per_ip_rate)
    go none = (refl, refl)
    go (some (ip, rest)) = rw (settled-limiter t_new t_ip ip rest s) (refl, refl)
move_settings gives_back s w = go s.returning
  where
    go :
        (n : ℕ)
        → ((give_back s n).limiter.per_ip_capacity ≡ s.limiter.per_ip_capacity)
          × ((give_back s n).limiter.per_ip_rate ≡ s.limiter.per_ip_rate)
    go zero = (refl, refl)
    go (suc n) = let (g, e, _, _, _) = returned_bucket s.limiter w in rw e (refl, refl)
move_settings (sweeps later) s w = (refl, refl)
