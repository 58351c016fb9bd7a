-- ===== src/Fetcher/Redirects/Limit.antt =====
-- How many redirections the client of internal/fetcher/http.go follows.
use native.Mathlib.Nat.{eq-or-lt_of_le}
use perion_assignment.Common.{
  ℕ, zero, suc, ◌+◌, ◌≤◌, ◌<◌, ◌≡◌, refl, ap, false, none, length, arith, ◌⊎◌, inl, inr,
}
use perion_assignment.Text.{Text, codes}
use perion_assignment.Models.Errors.{plain}
use perion_assignment.Fetcher.{Answer, failed}
use perion_assignment.Fetcher.Redirects.{
  Reply, final, check_redirect, Done, Client, Leads, stays, hops, url_error,
}

goes_on : (via : ℕ) → via < 5 → check_redirect via ≡ none
unfolding check_redirect
goes_on via h = ground arith

le_or_lt : (a b : ℕ) → (a ≤ b) ⊎ (b < a)
le_or_lt a b = omega arith

-- The answer to one redirection too many.
abbrev pub IsTooMany : Answer → Type 0
IsTooMany a =
    (location : Text) × (a ≡ failed false (url_error location (plain (codes "too many redirects"))))

module _ {replies : Text → Reply} {send : (via : ℕ) → Text → Done}
    (client : Client replies send) where
  few :
      (n via : ℕ) (url last : Text) (a : Answer)
      → Leads replies n url last
      → replies last ≡ final a
      → via + n ≤ 4
      → ((send via url).answer ≡ a) × (length (send via url).requested ≡ suc n)
  few zero via url last a stays end h = rw (client.ends {via = via} end) (refl, refl)
  few (suc n) via url last a (hops {next = next} e leads) end h =
      let (same, count) = few n (suc via) next last a leads end (omega arith) in
      rw (client.follows e (goes_on (suc via) (omega arith))) (same, ap suc count)

  many :
      (n via : ℕ) (url last : Text)
      → Leads replies n url last
      → via ≤ 4
      → 5 ≤ via + n
      → IsTooMany (send via url).answer × (via + length (send via url).requested ≡ 5)
  unfolding check_redirect
  many zero via url last leads low high = absurd (omega arith)
  many (suc n) via url last (hops {next = next} e leads) low high = elim (eq-or-lt_of_le low) [
    | inl at_four ↦
        rw (client.refuses {via = via} e (ap (λ v. check_redirect (suc v)) at_four))
          ((next, refl), omega arith)
    | inr below ↦
        let (refused, count) = many n (suc via) next last leads (omega arith) (omega arith) in
        rw (client.follows e (goes_on (suc via) (omega arith))) (refused, omega arith)
  ]

  -- An answer that is behind at most four redirections is had, with one request more than there are
  -- redirections. Behind five and more, five requests are made, and then the client fails.
  pub redirects_bound :
      (n : ℕ) (url last : Text) (a : Answer)
      → Leads replies n url last
      → replies last ≡ final a
      → ((n ≤ 4) × ((send 0 url).answer ≡ a) × (length (send 0 url).requested ≡ suc n))
        ⊎ ((5 ≤ n) × IsTooMany (send 0 url).answer × (length (send 0 url).requested ≡ 5))
  redirects_bound n url last a leads end = elim (le_or_lt n 4) [
    | inl low ↦
        let (same, count) = few n 0 url last a leads end (omega arith) in inl (low, same, count)
    | inr high ↦
        let (refused, count) = many n 0 url last leads (omega arith) (omega arith) in
        inr (high, refused, omega arith)
  ]
