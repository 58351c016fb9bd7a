-- ===== src/RateLimit/TwoTier/Credit.antt =====
-- What an address of the two-tier limiter may still be given, and what requests and sweeps make of it.
use perion_assignment.Common.{
  ℕ, ◌+◌, ◌-◌, ◌*◌, ◌≤◌, ◌≡◌, refl, Bool, false, arith, if◌then◌else◌, Bool-cases, inl, inr, ◌∙◌,
  ap, Option, some, none, Option-cases,
}
use perion_assignment.Text.{Text}
use perion_assignment.Dict.{get}
use perion_assignment.Dict.Laws.{AllValues-get}
use perion_assignment.RateLimit.{
  TokenBucket, TwoTierRateLimiter, new_token_bucket, refill, allow, cleanup_ip_buckets,
}
use perion_assignment.Common.{not, ltb, ltb→lt}
use perion_assignment.Text.{text_eq}
use perion_assignment.Dict.Laws.{get-put, get-put_self, get-keep_if, kept}
use perion_assignment.RateLimit.{second, half_hour}
use perion_assignment.RateLimit.Bucket.{credit, allow-credit, split_elapsed}
use perion_assignment.RateLimit.TwoTier.{
  bucket_at, written, Outcome, global_refused, admitted, ip_refused,
}
use perion_assignment.RateLimit.TwoTier.Valid.{IsBucket, IsValid, InOrder, bucket_at-IsBucket}

-- What an address may still be given, in billionths of a token.
abbrev ip_credit_of : ℕ → ℕ → TwoTierRateLimiter → Option TokenBucket → ℕ
ip_credit_of now until trl none = trl.per_ip_capacity * second + (until - now) * trl.per_ip_rate
ip_credit_of now until trl (some tb) = credit until tb

unfoldable pub ip_credit : ℕ → ℕ → Text → TwoTierRateLimiter → ℕ
ip_credit now until ip trl = ip_credit_of now until trl (get ip trl.ip_buckets)

elapsed_mono :
    (rate now later until : ℕ)
    → now ≤ later
    → later ≤ until
    → (until - later) * rate ≤ (until - now) * rate
elapsed_mono rate now later until h k = omega (arith, split_elapsed rate now later until h k)

-- An address whose bucket is left alone has no more credit later.
pub ip_credit_later :
    (now later until : ℕ) (ip : Text) (trl trl' : TwoTierRateLimiter)
    → now ≤ later
    → later ≤ until
    → get ip trl'.ip_buckets ≡ get ip trl.ip_buckets
    → (trl'.per_ip_capacity ≡ trl.per_ip_capacity) × (trl'.per_ip_rate ≡ trl.per_ip_rate)
    → ip_credit later until ip trl' ≤ ip_credit now until ip trl
unfolding ip_credit
ip_credit_later now later until ip trl trl' h k same settings =
    ground (arith, elapsed_mono trl.per_ip_rate now later until h k)

bucket_at-credit :
    (now later until : ℕ) (ip : Text) (trl : TwoTierRateLimiter)
    → now ≤ later
    → later ≤ until
    → credit until (bucket_at ip later trl) ≤ ip_credit now until ip trl
unfolding ip_credit bucket_at new_token_bucket
bucket_at-credit now later until ip trl h k = elim (Option-cases (get ip trl.ip_buckets)) [
  | inl absent ↦ rw absent (omega (arith, elapsed_mono trl.per_ip_rate now later until h k))
  | inr (tb, found) ↦ rw found (omega arith)
]

-- The credit of the address that asks, once its bucket has answered.
pub asked_credit :
    (now t_global t_new t_ip until : ℕ) (ip : Text) (trl : TwoTierRateLimiter) (g : TokenBucket)
    → IsValid now trl
    → InOrder now t_global t_new t_ip
    → t_ip ≤ until
    → (if (allow t_ip (bucket_at ip t_new trl)).1 then second else 0)
        + ip_credit t_ip until ip (written ip trl g (allow t_ip (bucket_at ip t_new trl)).0)
      ≤ ip_credit now until ip trl
unfolding ip_credit
asked_credit now t_global t_new t_ip until ip trl g v h k =
    let b = bucket_at ip t_new trl in
    let bucket = bucket_at-IsBucket ip now t_new trl v (omega arith) in
    let past = bucket.past in
    rw (get-put_self ip (allow t_ip b).0 trl.ip_buckets) (
      omega (
        arith,
        allow-credit t_ip until b (omega arith) k bucket.within,
        bucket_at-credit now t_new until ip trl (omega arith) (omega arith),
      ))

pub Outcome-credit :
    (now t_global t_new t_ip until : ℕ) (ip : Text) (trl : TwoTierRateLimiter)
    {r : TwoTierRateLimiter × Bool}
    → Outcome t_global t_new t_ip ip trl r
    → IsValid now trl
    → InOrder now t_global t_new t_ip
    → t_ip ≤ until
    → (if r.1 then second else 0) + ip_credit t_ip until ip r.0 ≤ ip_credit now until ip trl
Outcome-credit now t_global t_new t_ip until ip trl (global_refused _ e) v h k = rw e (
    omega (
      arith,
      ip_credit_later now t_ip until ip trl
          (record trl { global_bucket = refill t_global trl.global_bucket }) (omega arith) k refl
          (refl, refl),
    ))
Outcome-credit now t_global t_new t_ip until ip trl (admitted _ given e) v h k = rw e (
    rw given at (
      asked_credit now t_global t_new t_ip until ip trl (allow t_global trl.global_bucket).0 v h k))
Outcome-credit now t_global t_new t_ip until ip trl (ip_refused _ refused e) v h k = rw e (
    rw refused at
      (asked_credit now t_global t_new t_ip until ip trl (refill t_global trl.global_bucket) v h k))

-- Another address's request leaves the credit of an address alone.
pub Outcome-other :
    (now t_global t_new t_ip until : ℕ) (ip other : Text) (trl : TwoTierRateLimiter)
    {r : TwoTierRateLimiter × Bool}
    → Outcome t_global t_new t_ip other trl r
    → text_eq other ip ≡ false
    → now ≤ t_ip
    → t_ip ≤ until
    → ip_credit t_ip until ip r.0 ≤ ip_credit now until ip trl
Outcome-other now t_global t_new t_ip until ip other trl (global_refused _ e) n h k =
    rw e (ip_credit_later now t_ip until ip trl _ h k refl (refl, refl))
Outcome-other now t_global t_new t_ip until ip other trl (admitted _ _ e) n h k = rw e (
    ip_credit_later now t_ip until ip trl _ h k (get-put ip other _ trl.ip_buckets ∙ rw n)
      (refl, refl))
Outcome-other now t_global t_new t_ip until ip other trl (ip_refused _ _ e) n h k = rw e (
    ip_credit_later now t_ip until ip trl _ h k (get-put ip other _ trl.ip_buckets ∙ rw n)
      (refl, refl))

scaled : (a b rate : ℕ) → a ≤ b → a * rate ≤ b * rate
scaled a b rate h = grind arith

-- A sweep gives nobody more than the wait before it was worth.
pub sweep_credit :
    (now later until : ℕ) (ip : Text) (trl : TwoTierRateLimiter)
    → IsValid now trl
    → trl.per_ip_capacity * second ≤ half_hour * trl.per_ip_rate
    → now ≤ later
    → later ≤ until
    → ip_credit later until ip (cleanup_ip_buckets later trl) ≤ ip_credit now until ip trl
unfolding ip_credit cleanup_ip_buckets
sweep_credit now later until ip trl v cheap h k =
    rw (get-keep_if (λ b. not (ltb (b.last_refill + half_hour) later)) ip trl.ip_buckets v.distinct)
      (elim (Option-cases (get ip trl.ip_buckets)) [
        | inl absent ↦ rw absent (omega (arith, elapsed_mono trl.per_ip_rate now later until h k))
        | inr (tb, found) ↦ rw found (
            swept tb (
              AllValues-get (IsBucket trl.per_ip_capacity trl.per_ip_rate now) ip trl.ip_buckets
                v.buckets found))
      ])
  where
    swept :
        (tb : TokenBucket)
        → IsBucket trl.per_ip_capacity trl.per_ip_rate now tb
        → ip_credit_of later until trl
            (kept (λ b. not (ltb (b.last_refill + half_hour) later)) (some tb))
          ≤ credit until tb
    swept tb b = elim (Bool-cases (ltb (tb.last_refill + half_hour) later)) [
      | inl old ↦
          let past = b.past in
          let long : half_hour ≤ later - tb.last_refill = omega (arith, ltb→lt _ _ old) in
          let (_, rate) = b.settings in
          rw old (
            omega (
              arith,
              ap (λ (x : ℕ). (until - tb.last_refill) * x) rate,
              scaled half_hour (later - tb.last_refill) trl.per_ip_rate long,
              split_elapsed trl.per_ip_rate tb.last_refill later until (omega arith) k,
            ))
      | inr recent ↦ rw recent (omega arith)
    ]

-- Requests and sweeps keep the settings of the limiter.
pub Outcome_settings :
    (t_global t_new t_ip : ℕ) (ip : Text) (trl : TwoTierRateLimiter) {r : TwoTierRateLimiter × Bool}
    → Outcome t_global t_new t_ip ip trl r
    → (r.0.per_ip_capacity ≡ trl.per_ip_capacity) × (r.0.per_ip_rate ≡ trl.per_ip_rate)
Outcome_settings t_global t_new t_ip ip trl (global_refused _ e) = rw e (refl, refl)
Outcome_settings t_global t_new t_ip ip trl (admitted _ _ e) = rw e (refl, refl)
Outcome_settings t_global t_new t_ip ip trl (ip_refused _ _ e) = rw e (refl, refl)
