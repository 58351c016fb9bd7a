-- ===== src/RateLimit/TwoTier/Valid.antt =====
-- The invariant of the two-tier limiter, which every operation keeps.
use perion_assignment.Common.{ℕ, ◌≤◌, ◌≡◌, refl, Bool, arith, inl, inr, ◌∙◌, Option-cases}
use perion_assignment.Text.{Text}
use perion_assignment.Dict.{get, IsDict}
use perion_assignment.Dict.Laws.{
  AllValues, AllValues-get, AllValues-put, AllValues-keep_if, AllValues-imp, put-IsDict,
  keep_if-IsDict,
}
use perion_assignment.RateLimit.{
  TokenBucket, TwoTierRateLimiter, new_token_bucket, refill, allow, allow_two_tier,
  cleanup_ip_buckets, new_two_tier,
}
use perion_assignment.RateLimit.Bucket.{max_capacity, IsWithin, refill_fields, allow_fields}
use perion_assignment.RateLimit.TwoTier.{
  bucket_at, written, Outcome, global_refused, admitted, ip_refused, allow-Outcome,
}

-- A bucket of the limiter at a time: its settings, no more tokens than its capacity, and no refill
-- that is still to come.
pub record IsBucket (capacity rate now : ℕ) (tb : TokenBucket) : Type 0 where
  pub settings : (tb.capacity ≡ capacity) × (tb.refill_rate ≡ rate)
  pub within : IsWithin tb
  pub past : tb.last_refill ≤ now

pub record IsValid (now : ℕ) (trl : TwoTierRateLimiter) : Type 0 where
  pub global_within : IsWithin trl.global_bucket
  pub global_past : trl.global_bucket.last_refill ≤ now
  pub per_ip_max : trl.per_ip_capacity ≤ max_capacity
  pub distinct : IsDict trl.ip_buckets
  pub buckets : AllValues (IsBucket trl.per_ip_capacity trl.per_ip_rate now) trl.ip_buckets

IsBucket-later :
    (capacity rate now later : ℕ) (tb : TokenBucket)
    → now ≤ later
    → IsBucket capacity rate now tb
    → IsBucket capacity rate later tb
IsBucket-later capacity rate now later tb h b = record {
  settings = b.settings;
  within = b.within;
  past = omega arith;
}

pub bucket_at-IsBucket :
    (ip : Text) (now later : ℕ) (trl : TwoTierRateLimiter)
    → IsValid now trl
    → now ≤ later
    → IsBucket trl.per_ip_capacity trl.per_ip_rate later (bucket_at ip later trl)
unfolding bucket_at new_token_bucket
bucket_at-IsBucket ip now later trl v h = elim (Option-cases (get ip trl.ip_buckets)) [
  | inl absent ↦
      rw absent (record {
        settings = (refl, refl);
        within = (omega arith, v.per_ip_max);
        past = omega arith;
      })
  | inr (tb, found) ↦ rw found (
      IsBucket-later _ _ now later tb h (
        AllValues-get (IsBucket trl.per_ip_capacity trl.per_ip_rate now) ip trl.ip_buckets v.buckets
          found))
]

pub allow-IsBucket :
    (capacity rate now later : ℕ) (tb : TokenBucket)
    → now ≤ later
    → IsBucket capacity rate now tb
    → IsBucket capacity rate later (allow later tb).0
allow-IsBucket capacity rate now later tb h b =
    let (c, r, l, w) = allow_fields later tb (omega arith) b.within in
    record { settings = (c ∙ b.settings.0, r ∙ b.settings.1); within = w; past = l }

pub written-IsValid :
    (now later : ℕ) (ip : Text) (trl : TwoTierRateLimiter) (g b : TokenBucket)
    → IsValid now trl
    → now ≤ later
    → IsWithin g × (g.last_refill ≤ later)
    → IsBucket trl.per_ip_capacity trl.per_ip_rate later b
    → IsValid later (written ip trl g b)
written-IsValid now later ip trl g b v h global bucket = record {
  global_within = global.0;
  global_past = global.1;
  per_ip_max = v.per_ip_max;
  distinct = put-IsDict ip b trl.ip_buckets v.distinct;
  buckets =
      AllValues-put (IsBucket trl.per_ip_capacity trl.per_ip_rate later) ip b trl.ip_buckets
        (AllValues-imp (IsBucket trl.per_ip_capacity trl.per_ip_rate now) _ trl.ip_buckets
          (λ tb. IsBucket-later _ _ now later tb h) v.buckets)
        bucket;
}

pub later-IsValid :
    (now later : ℕ) (trl : TwoTierRateLimiter) (g : TokenBucket)
    → IsValid now trl
    → now ≤ later
    → IsWithin g × (g.last_refill ≤ later)
    → IsValid later (record trl { global_bucket = g })
later-IsValid now later trl g v h global = record {
  global_within = global.0;
  global_past = global.1;
  per_ip_max = v.per_ip_max;
  distinct = v.distinct;
  buckets =
      AllValues-imp (IsBucket trl.per_ip_capacity trl.per_ip_rate now) _ trl.ip_buckets
        (λ tb. IsBucket-later _ _ now later tb h) v.buckets;
}

-- The times of one call, in the order in which the clock is read.
abbrev pub InOrder : (now t_global t_new t_ip : ℕ) → Type 0
InOrder now t_global t_new t_ip = (now ≤ t_global) × (t_global ≤ t_new) × (t_new ≤ t_ip)

Outcome-IsValid :
    (now t_global t_new t_ip : ℕ) (ip : Text) (trl : TwoTierRateLimiter)
    {r : TwoTierRateLimiter × Bool}
    → Outcome t_global t_new t_ip ip trl r
    → IsValid now trl
    → InOrder now t_global t_new t_ip
    → IsValid t_ip r.0
Outcome-IsValid now t_global t_new t_ip ip trl o v h = go o
  where
    g : TokenBucket
    g = trl.global_bucket

    past : g.last_refill ≤ t_global
    past = omega (arith, v.global_past)

    global : (IsWithin (refill t_global g)) × ((refill t_global g).last_refill ≤ t_ip)
    global = let f = refill_fields t_global g past v.global_within in (f.3, omega arith)

    taken : (IsWithin (allow t_global g).0) × ((allow t_global g).0.last_refill ≤ t_ip)
    taken = let f = allow_fields t_global g past v.global_within in (f.3, omega arith)

    bucket :
        IsBucket trl.per_ip_capacity trl.per_ip_rate t_ip (allow t_ip (bucket_at ip t_new trl)).0
    bucket =
        allow-IsBucket _ _ t_new t_ip (bucket_at ip t_new trl) h.2
          (bucket_at-IsBucket ip now t_new trl v (omega arith))

    go : {r : TwoTierRateLimiter × Bool} → Outcome t_global t_new t_ip ip trl r → IsValid t_ip r.0
    go (global_refused _ e) = rw e (later-IsValid now t_ip trl _ v (omega arith) global)
    go (admitted _ _ e) = rw e (written-IsValid now t_ip ip trl _ _ v (omega arith) taken bucket)
    go (ip_refused _ _ e) = rw e (written-IsValid now t_ip ip trl _ _ v (omega arith) global bucket)

-- A call at later times keeps the limiter valid, whatever its outcome.
pub allow_two_tier-IsValid :
    (now t_global t_new t_ip : ℕ) (ip : Text) (trl : TwoTierRateLimiter)
    → IsValid now trl
    → InOrder now t_global t_new t_ip
    → IsValid t_ip (allow_two_tier t_global t_new t_ip ip trl).0
allow_two_tier-IsValid now t_global t_new t_ip ip trl v h =
    Outcome-IsValid now t_global t_new t_ip ip trl
      (allow-Outcome t_global t_new t_ip ip trl (omega (arith, v.global_past)) v.global_within) v h

-- A sweep at a later time keeps the limiter valid.
pub cleanup-IsValid :
    (now later : ℕ) (trl : TwoTierRateLimiter)
    → IsValid now trl
    → now ≤ later
    → IsValid later (cleanup_ip_buckets later trl)
unfolding cleanup_ip_buckets
cleanup-IsValid now later trl v h =
    let w =
      later-IsValid now later trl trl.global_bucket v h
        (v.global_within, omega (arith, v.global_past)) in
    record {
      global_within = w.global_within;
      global_past = w.global_past;
      per_ip_max = v.per_ip_max;
      distinct = keep_if-IsDict _ trl.ip_buckets v.distinct;
      buckets = AllValues-keep_if _ _ trl.ip_buckets w.buckets;
    }

pub new_two_tier-IsValid :
    (gc gr ic ir now : ℕ)
    → gc ≤ max_capacity
    → ic ≤ max_capacity
    → IsValid now (new_two_tier gc gr ic ir now)
unfolding new_two_tier
new_two_tier-IsValid gc gr ic ir now h k = record {
  global_within = omega arith;
  global_past = omega arith;
  per_ip_max = omega arith;
  distinct = tt;
  buckets = tt;
}
