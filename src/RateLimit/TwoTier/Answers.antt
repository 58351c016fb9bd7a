-- ===== src/RateLimit/TwoTier/Answers.antt =====
-- What `TwoTierRateLimiter.Allow` answers, and what it leaves alone.
use perion_assignment.Common.{ℕ, ◌≤◌, ◌≡◌, refl, Bool, arith, if◌then◌else◌, some}
use perion_assignment.Text.{Text}
use perion_assignment.Dict.{get}
use perion_assignment.RateLimit.{TwoTierRateLimiter, refill, allow, allow_two_tier}
use perion_assignment.Common.{◌&&◌}
use perion_assignment.Text.{text_eq}
use perion_assignment.Dict.Laws.{get-put}
use perion_assignment.RateLimit.TwoTier.{
  bucket_at, Outcome, global_refused, admitted, ip_refused, allow-Outcome,
}
use perion_assignment.RateLimit.TwoTier.Valid.{IsValid}

-- What a call answers and leaves: a request is admitted when both buckets give a token; one that is
-- refused has cost no global token, since the global bucket is as its refill left it.
abbrev pub Answers :
    (t_global t_new t_ip : ℕ) → Text → TwoTierRateLimiter → TwoTierRateLimiter × Bool → Type 0
Answers t_global t_new t_ip ip trl r =
    (r.1 ≡ ((allow t_global trl.global_bucket).1 && (allow t_ip (bucket_at ip t_new trl)).1))
    × (r.0.global_bucket
        ≡ (if r.1 then (allow t_global trl.global_bucket).0 else refill t_global trl.global_bucket))
    × ((other : Text)
        → get other r.0.ip_buckets ≡ (
            if (allow t_global trl.global_bucket).1 && text_eq ip other
            then some (allow t_ip (bucket_at ip t_new trl)).0
            else get other trl.ip_buckets))

Outcome-Answers :
    (t_global t_new t_ip : ℕ) (ip : Text) (trl : TwoTierRateLimiter) {r : TwoTierRateLimiter × Bool}
    → Outcome t_global t_new t_ip ip trl r
    → Answers t_global t_new t_ip ip trl r
Outcome-Answers t_global t_new t_ip ip trl (global_refused no_token e) =
    rw (e, no_token) (refl, refl, (λ _. refl))
Outcome-Answers t_global t_new t_ip ip trl (admitted token ip_token e) =
    rw (e, token, ip_token) (refl, refl, (λ other. get-put other ip _ trl.ip_buckets))
Outcome-Answers t_global t_new t_ip ip trl (ip_refused token no_ip_token e) =
    rw (e, token, no_ip_token) (refl, refl, (λ other. get-put other ip _ trl.ip_buckets))

-- At a valid limiter a request is admitted exactly when both buckets give a token; a request that
-- is refused costs no global token, the global bucket being as its refill left it; the bucket of
-- the address answers only when the global one gave a token, and no other address's bucket changes.
pub allow_two_tier-Answers :
    (now t_global t_new t_ip : ℕ) (ip : Text) (trl : TwoTierRateLimiter)
    → IsValid now trl
    → now ≤ t_global
    → Answers t_global t_new t_ip ip trl (allow_two_tier t_global t_new t_ip ip trl)
allow_two_tier-Answers now t_global t_new t_ip ip trl v h =
    Outcome-Answers t_global t_new t_ip ip trl
      (allow-Outcome t_global t_new t_ip ip trl (omega (arith, v.global_past)) v.global_within)
