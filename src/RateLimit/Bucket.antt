-- ===== src/RateLimit/Bucket.antt =====
-- One token bucket: what it may admit in a stretch of time.
use perion_assignment.Common.{
  ℕ, ◌+◌, ◌-◌, ◌*◌, ◌≤◌, ◌≡◌, List, [], ◌∷◌, arith, if◌then◌else◌, ap, ◌∙◌,
}
use perion_assignment.Common.{◌⊎◌, inl, inr, ◌<◌}
use perion_assignment.Float.Bound.{scaled_seconds-le}
use perion_assignment.RateLimit.{second, TokenBucket, tokens_to_add, refill, take_token, allow}

-- The largest capacity at which the rounding of float64 products is no matter.
abbrev pub max_capacity : ℕ
max_capacity = 2_000_000

-- No more tokens than the capacity, and that of two million at most.
abbrev pub IsWithin : TokenBucket → Type 0
IsWithin tb = (tb.tokens ≤ tb.capacity) × (tb.capacity ≤ max_capacity)

-- What a bucket may still give at a time, in billionths of a token.
abbrev pub credit : ℕ → TokenBucket → ℕ
credit now tb = tb.tokens * second + (now - tb.last_refill) * tb.refill_rate

tokens_to_add-le :
    (elapsed rate : ℕ)
    → (tokens_to_add elapsed rate * second ≤ elapsed * rate)
      ⊎ (max_capacity * second < elapsed * rate)
unfolding tokens_to_add
tokens_to_add-le elapsed rate = elim (le_or_lt (elapsed * rate) (max_capacity * second)) [
  | inl small ↦ inl (scaled_seconds-le elapsed rate small)
  | inr large ↦ inr large
]
  where
    le_or_lt : (a b : ℕ) → (a ≤ b) ⊎ (b < a)
    le_or_lt a b = ground arith

pub split_elapsed :
    (rate last now until : ℕ)
    → last ≤ now
    → now ≤ until
    → (until - last) * rate ≡ (until - now) * rate + (now - last) * rate
split_elapsed rate last now until h k =
    let e : until - last ≡ (until - now) + (now - last) = omega arith in
    omega (arith, ap (λ (x : ℕ). x * rate) e)

-- A refill gives no more than the time that has passed is worth.
pub refill-credit :
    (now until : ℕ) (tb : TokenBucket)
    → tb.last_refill ≤ now
    → now ≤ until
    → IsWithin tb
    → credit until (refill now tb) ≤ credit until tb
unfolding refill
refill-credit now until tb h k w = ground (
  arith,
  tokens_to_add-le (now - tb.last_refill) tb.refill_rate,
  split_elapsed tb.refill_rate tb.last_refill now until h k,
)

-- What no call changes, and where the last refill may lie.
pub refill_fields :
    (now : ℕ) (tb : TokenBucket)
    → tb.last_refill ≤ now
    → IsWithin tb
    → ((refill now tb).capacity ≡ tb.capacity)
      × ((refill now tb).refill_rate ≡ tb.refill_rate)
      × ((refill now tb).last_refill ≤ now)
      × IsWithin (refill now tb)
unfolding refill
refill_fields now tb h w = ground arith

pub take_token-credit :
    (until : ℕ) (tb : TokenBucket)
    → (if (take_token tb).1 then second else 0) + credit until (take_token tb).0 ≡ credit until tb
unfolding take_token
take_token-credit until tb = ground arith

pub take_token_fields :
    (tb : TokenBucket)
    → ((take_token tb).0.capacity ≡ tb.capacity)
      × ((take_token tb).0.refill_rate ≡ tb.refill_rate)
      × ((take_token tb).0.last_refill ≡ tb.last_refill)
      × ((take_token tb).0.tokens ≤ tb.tokens)
unfolding take_token
take_token_fields tb = ground arith

-- One call of `Allow`: what it admits is paid from the credit.
pub allow-credit :
    (now until : ℕ) (tb : TokenBucket)
    → tb.last_refill ≤ now
    → now ≤ until
    → IsWithin tb
    → (if (allow now tb).1 then second else 0) + credit until (allow now tb).0 ≤ credit until tb
unfolding allow
allow-credit now until tb h k w =
    omega (arith, take_token-credit until (refill now tb), refill-credit now until tb h k w)

pub allow_fields :
    (now : ℕ) (tb : TokenBucket)
    → tb.last_refill ≤ now
    → IsWithin tb
    → ((allow now tb).0.capacity ≡ tb.capacity)
      × ((allow now tb).0.refill_rate ≡ tb.refill_rate)
      × ((allow now tb).0.last_refill ≤ now)
      × IsWithin (allow now tb).0
unfolding allow
allow_fields now tb h w =
    let (c, r, l, within) = refill_fields now tb h w in
    let (c', r', l', t') = take_token_fields (refill now tb) in
    (c' ∙ c, r' ∙ r, omega arith, omega arith)

-- How many of the calls at the given times are admitted.
pub admitted : TokenBucket → List ℕ → ℕ
admitted tb [] = 0
admitted tb (now ∷ times) = (if (allow now tb).1 then 1 else 0) + admitted (allow now tb).0 times

-- Times that do not fall, from one bound to another.
abbrev pub IsOrdered : ℕ → List ℕ → ℕ → Type 0
IsOrdered from [] until = from ≤ until
IsOrdered from (now ∷ times) until = (from ≤ now) × IsOrdered now times until

pub IsOrdered-le :
    (from : ℕ) (times : List ℕ) (until : ℕ) → IsOrdered from times until → from ≤ until
IsOrdered-le from [] until h = h
IsOrdered-le from (now ∷ times) until h = omega (arith, IsOrdered-le now times until h.1)

IsOrdered-mono :
    (a b : ℕ) (times : List ℕ) (until : ℕ)
    → a ≤ b
    → IsOrdered b times until
    → IsOrdered a times until
IsOrdered-mono a b [] until h k = omega arith
IsOrdered-mono a b (now ∷ times) until h k = (omega arith, k.1)

-- A bucket within its capacity admits, of calls at times that do not fall, no more than its tokens
-- and what its rate gives in the time from its last refill on.
pub admitted_bound :
    (tb : TokenBucket) (times : List ℕ) (until : ℕ)
    → IsWithin tb
    → IsOrdered tb.last_refill times until
    → admitted tb times * second ≤ credit until tb
unfolding admitted
admitted_bound tb [] until w h = omega arith
admitted_bound tb (now ∷ times) until w h =
    let later = IsOrdered-le now times until h.1 in
    let (_, _, last, within) = allow_fields now tb h.0 w in
    let paid = allow-credit now until tb h.0 later w in
    let rest =
      admitted_bound (allow now tb).0 times until within
        (IsOrdered-mono _ now times until last h.1) in
    ground arith
