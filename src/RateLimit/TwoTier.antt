-- ===== src/RateLimit/TwoTier.antt =====
-- The two-tier limiter: its three outcomes and its invariant.
pub mod Valid
pub mod Answers
pub mod Credit
pub mod Bounds
use perion_assignment.Common.{
  ℕ, zero, suc, ◌+◌, ◌-◌, ◌*◌, ◌/◌, ◌≤◌, ◌<◌, ◌≡◌, refl, Bool, true, false, List, [], ◌∷◌, arith,
  if◌then◌else◌, Bool-cases, inl, inr, ◌⊎◌, ◌∙◌, ap, sym, Option, some, none, Option-cases,
}
use perion_assignment.Text.{Text}
use perion_assignment.Dict.{Dict, get, put, IsDict}
use perion_assignment.Dict.Laws.{
  put-put, AllValues, AllValues-get, AllValues-put, AllValues-keep_if, AllValues-imp, put-IsDict,
  keep_if-IsDict,
}
use perion_assignment.RateLimit.{
  TokenBucket, TwoTierRateLimiter, new_token_bucket, refill, take_token, allow, found_or_new,
  get_or_create_ip_bucket, return_global_token, allow_ip, allow_global, allow_two_tier,
  cleanup_ip_buckets, new_two_tier,
}
use perion_assignment.RateLimit.Bucket.{IsWithin, refill_fields, allow_fields}

-- The bucket of an address, new at the time if there is none.
abbrev pub bucket_or_new : TwoTierRateLimiter → ℕ → Option TokenBucket → TokenBucket
bucket_or_new trl now none = new_token_bucket trl.per_ip_capacity trl.per_ip_rate now
bucket_or_new trl now (some bucket) = bucket

unfoldable pub bucket_at : Text → ℕ → TwoTierRateLimiter → TokenBucket
bucket_at ip now trl = bucket_or_new trl now (get ip trl.ip_buckets)

refused_token : (tb : TokenBucket) → (take_token tb).1 ≡ false → (take_token tb).0 ≡ tb
unfolding take_token
refused_token tb h = ground arith

refused_bucket :
    (now : ℕ) (tb : TokenBucket) → (allow now tb).1 ≡ false → (allow now tb).0 ≡ refill now tb
unfolding allow
refused_bucket now tb h = refused_token (refill now tb) h

-- The limiter with the two buckets written back.
abbrev pub written : Text → TwoTierRateLimiter → TokenBucket → TokenBucket → TwoTierRateLimiter
written ip trl global bucket = record trl {
  global_bucket = global;
  ip_buckets = put ip bucket trl.ip_buckets;
}

returned_token :
    (tb : TokenBucket) (trl : TwoTierRateLimiter)
    → IsWithin tb
    → (take_token tb).1 ≡ true
    → trl.global_bucket ≡ (take_token tb).0
    → return_global_token trl ≡ record trl { global_bucket = tb }
unfolding take_token return_global_token
returned_token tb trl w h e = ground arith

allow_ip_found :
    (t_new t_ip : ℕ) (ip : Text) (trl : TwoTierRateLimiter)
    → (let b = allow t_ip (bucket_at ip t_new trl) in
        ((b.1 ≡ true)
          × (allow_ip t_ip ip (get_or_create_ip_bucket ip t_new trl)
              ≡ (written ip trl trl.global_bucket b.0, true)))
        ⊎ ((b.1 ≡ false)
            × (allow_ip t_ip ip (get_or_create_ip_bucket ip t_new trl)
                ≡ (return_global_token (written ip trl trl.global_bucket b.0), false))))
unfolding allow_ip get_or_create_ip_bucket bucket_at
allow_ip_found t_new t_ip ip trl =
    go (get ip trl.ip_buckets) (allow t_ip (bucket_or_new trl t_new (get ip trl.ip_buckets))) refl
  where
    go :
        (found : Option TokenBucket) (b : TokenBucket × Bool)
        → allow t_ip (bucket_or_new trl t_new found) ≡ b
        → ((b.1 ≡ true)
            × (allow_ip t_ip ip (found_or_new trl ip t_new found)
                ≡ (written ip trl trl.global_bucket b.0, true)))
          ⊎ ((b.1 ≡ false)
              × (allow_ip t_ip ip (found_or_new trl ip t_new found)
                  ≡ (return_global_token (written ip trl trl.global_bucket b.0), false)))
    go none (b, true) e = inl (refl, rw (e, put-put))
    go none (b, false) e = inr (refl, rw (e, put-put))
    go (some bucket) (b, true) e = inl (refl, rw e)
    go (some bucket) (b, false) e = inr (refl, rw e)

-- The three outcomes of `Allow`: refused by the global bucket, admitted, or refused by the bucket
-- of the address, after which the global bucket is as its refill left it.
pub data Outcome (t_global t_new t_ip : ℕ) (ip : Text) (trl : TwoTierRateLimiter)
    (r : TwoTierRateLimiter × Bool) : Type 0 where
  global_refused :
      (allow t_global trl.global_bucket).1 ≡ false
      → r ≡ (record trl { global_bucket = refill t_global trl.global_bucket }, false)
      → Outcome t_global t_new t_ip ip trl r
  admitted :
      (allow t_global trl.global_bucket).1 ≡ true
      → (allow t_ip (bucket_at ip t_new trl)).1 ≡ true
      → r ≡ (
        written ip trl (allow t_global trl.global_bucket).0 (allow t_ip (bucket_at ip t_new trl)).0,
        true,
      )
      → Outcome t_global t_new t_ip ip trl r
  ip_refused :
      (allow t_global trl.global_bucket).1 ≡ true
      → (allow t_ip (bucket_at ip t_new trl)).1 ≡ false
      → r ≡ (
        written ip trl (refill t_global trl.global_bucket) (allow t_ip (bucket_at ip t_new trl)).0,
        false,
      )
      → Outcome t_global t_new t_ip ip trl r

bucket_at_global :
    (ip : Text) (now : ℕ) (trl : TwoTierRateLimiter) (g : TokenBucket)
    → bucket_at ip now (record trl { global_bucket = g }) ≡ bucket_at ip now trl
unfolding bucket_at
bucket_at_global ip now trl g = go (get ip trl.ip_buckets)
  where
    go :
        (found : Option TokenBucket)
        → bucket_or_new (record trl { global_bucket = g }) now found ≡ bucket_or_new trl now found
    go none = refl
    go (some bucket) = refl

returned_global :
    (now : ℕ) (trl : TwoTierRateLimiter) (m : Dict TokenBucket)
    → trl.global_bucket.last_refill ≤ now
    → IsWithin trl.global_bucket
    → (allow now trl.global_bucket).1 ≡ true
    → return_global_token
        (record trl { global_bucket = (allow now trl.global_bucket).0; ip_buckets = m })
      ≡ record trl { global_bucket = refill now trl.global_bucket; ip_buckets = m }
unfolding allow
returned_global now trl m l w h =
    returned_token (refill now trl.global_bucket) _ (refill_fields now trl.global_bucket l w).3 h
      refl

-- The two answers of the bucket of the address, once the global bucket has given a token.
asked-Outcome :
    (t_global t_new t_ip : ℕ) (ip : Text) (trl : TwoTierRateLimiter)
    → trl.global_bucket.last_refill ≤ t_global
    → IsWithin trl.global_bucket
    → (allow t_global trl.global_bucket).1 ≡ true
    → Outcome t_global t_new t_ip ip trl (
        allow_ip t_ip ip (
          get_or_create_ip_bucket ip t_new
            (record trl { global_bucket = (allow t_global trl.global_bucket).0 })))
asked-Outcome t_global t_new t_ip ip trl l w given =
    let g = (allow t_global trl.global_bucket).0 in
    let same = bucket_at_global ip t_new trl g in
    elim (allow_ip_found t_new t_ip ip (record trl { global_bucket = g })) [
      | inl (answer, e) ↦ admitted given (rw (← same) answer) (rw (← same) e)
      | inr (answer, e) ↦ ip_refused given (rw (← same) answer) (
          rw (← same) (
            e
            ∙ ap (λ (x : TwoTierRateLimiter). (x, false))
                (returned_global t_global trl _ l w given)))
    ]

pub allow-Outcome :
    (t_global t_new t_ip : ℕ) (ip : Text) (trl : TwoTierRateLimiter)
    → trl.global_bucket.last_refill ≤ t_global
    → IsWithin trl.global_bucket
    → Outcome t_global t_new t_ip ip trl (allow_two_tier t_global t_new t_ip ip trl)
unfolding allow_two_tier allow_global
allow-Outcome t_global t_new t_ip ip trl l w =
    elim (Bool-cases (allow t_global trl.global_bucket).1) [
      | inl given ↦ rw given (asked-Outcome t_global t_new t_ip ip trl l w given)
      | inr refused ↦
          rw refused
            (global_refused refused (rw (refused_bucket t_global trl.global_bucket refused)))
    ]
