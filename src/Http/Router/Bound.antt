-- ===== src/Http/Router/Bound.antt =====
-- How often the handlers of internal/http run for one client, behind the two-tier rate limiter.
use perion_assignment.Common.{
  ℕ, ◌+◌, ◌≤◌, ◌≡◌, refl, none, List, [], ◌∷◌, if◌then◌else◌, arith, ◌&&◌,
}
use perion_assignment.Text.{Text, text_eq}
use perion_assignment.RateLimit.{TwoTierRateLimiter, allow_two_tier, cleanup_ip_buckets}
use perion_assignment.RateLimit.TwoTier.Bounds.{Event, request, sweep, step, is_for, admitted_for}
use perion_assignment.Http.Middleware.{
  Incoming, client_of, Exchange, Ending, Handler, RateLimiter, chain,
}
use perion_assignment.Http.Middleware.Ends.{begun, handed}
use perion_assignment.Http.Middleware.Outcomes.{
  Outcome, limited, preflight, rescued, passed, run, chain-Outcome,
}
use perion_assignment.Http.Router.{fresh}

-- `ratelimit.TwoTierRateLimiter` as the middleware's limiter.
abbrev pub two_tier : RateLimiter TwoTierRateLimiter
two_tier = record { allow_request = λ t ip trl. allow_two_tier t.global t.created t.per_ip ip trl }

-- What the server meets: a request that a route is found for, or a sweep of the limiter.
pub data Happening : Type 0 where
  arrives : Incoming → Happening
  sweeps : (now : ℕ) → Happening

unfoldable pub event_at : Happening → Event
event_at (arrives r) = request (client_of r) r.times.global r.times.created r.times.per_ip
event_at (sweeps now) = sweep now

abbrev pub history : List Happening → List Event
history [] = []
history (h ∷ rest) = event_at h ∷ history rest

-- A handler that counts how often it is called for a client.
abbrev pub keep_count : {W : Type 0} → ℕ → Exchange W × Ending → Exchange (ℕ × W) × Ending
keep_count n (x, e) = (record { world = (n, x.world); writer = x.writer; log = x.log }, e)

unfoldable pub counted : {W : Type 0} → Text → Handler W → Handler (ℕ × W)
counted ip next r ctx x =
    keep_count ((if text_eq (client_of r) ip then 1 else 0) + x.world.0)
      (next r ctx (record { world = x.world.1; writer = x.writer; log = x.log }))

module _ {W : Type 0} (next : Handler W) where
  pub happens : Happening → TwoTierRateLimiter × W → TwoTierRateLimiter × W
  happens (arrives r) s = (chain two_tier next r none (fresh s)).0.world
  happens (sweeps now) (trl, w) = (cleanup_ip_buckets now trl, w)

  pub happen_all : List Happening → TwoTierRateLimiter × W → TwoTierRateLimiter × W
  happen_all [] s = s
  happen_all (h ∷ rest) s = happen_all rest (happens h s)

module _ {W : Type 0} (ip : Text) (next : Handler W) where
  -- The limiter is where the events lead it, and the count grows with what it admits.
  abbrev Counts :
      Event → (trl : TwoTierRateLimiter) → (n : ℕ) → TwoTierRateLimiter × (ℕ × W) → Type 0
  Counts e trl n s =
      (s.0 ≡ (step e trl).0) × (s.1.0 ≤ n + (if (step e trl).1 && is_for ip e then 1 else 0))

  counted-run :
      (r : Incoming) (trl : TwoTierRateLimiter) (n : ℕ) (w : W)
      → (run two_tier (counted ip next) r none (fresh (trl, (n, w)))).0.world.0
        ≡ (if text_eq (client_of r) ip then 1 else 0) + n
  unfolding counted handed begun
  counted-run r trl n w = refl

  Outcome-Counts :
      (r : Incoming) (trl : TwoTierRateLimiter) (n : ℕ) (w : W)
      {y : Exchange (TwoTierRateLimiter × (ℕ × W)) × Ending}
      → Outcome two_tier (counted ip next) r none (fresh (trl, (n, w))) y
      → Counts (event_at (arrives r)) trl n y.0.world
  unfolding event_at step
  Outcome-Counts r trl n w (limited h e) = rw (e.world_after, h) (refl, omega arith)
  Outcome-Counts r trl n w (preflight h o e) = rw (e.world_after, h) (refl, ground arith)
  Outcome-Counts r trl n w (rescued p h o k e) =
      rw (e.world_after, counted-run r trl n w, h) (refl, ground arith)
  Outcome-Counts r trl n w (passed h o k e) =
      rw (e.world_after, counted-run r trl n w, h) (refl, ground arith)

  happens-Counts :
      (h : Happening) (trl : TwoTierRateLimiter) (n : ℕ) (w : W)
      → Counts (event_at h) trl n (happens (counted ip next) h (trl, (n, w)))
  unfolding happens event_at step
  happens-Counts (sweeps now) trl n w = (refl, omega arith)
  happens-Counts (arrives r) trl n w =
      Outcome-Counts r trl n w
        (chain-Outcome two_tier (counted ip next) r none (fresh (trl, (n, w))))

  -- Of a sequence of requests and sweeps, the handler behind the middlewares, whatever it does, is
  -- called for a client no more often than the limiter admits the client.
  pub happen_all-le :
      (hs : List Happening) (trl : TwoTierRateLimiter) (n : ℕ) (w : W)
      → (happen_all (counted ip next) hs (trl, (n, w))).1.0 ≤ n + admitted_for ip trl (history hs)
  unfolding happen_all admitted_for
  happen_all-le [] trl n w = omega arith
  happen_all-le (h ∷ rest) trl n w =
      let s = happens (counted ip next) h (trl, (n, w)) in
      let c = happens-Counts h trl n w in
      let later = happen_all-le rest s.0 s.1.0 s.1.1 in rw (← c.0) (omega (arith, later, c.1))
