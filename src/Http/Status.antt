-- ===== src/Http/Status.antt =====
-- The status codes of internal/http/handlers.go.
use perion_assignment.Common.{
  ℕ, ◌+◌, ◌<◌, ◌≡◌, refl, ◌↔◌, ◌⊎◌, inl, inr, true, List, [], ◌∷◌, ◌++◌, arith, if◌then◌else◌, ◌==◌,
  length,
}
use mathlib.Core.Bool.{false≢true}
use perion_assignment.Text.{Text, codes, contains, has_prefix}
use perion_assignment.Dict.{Dict}
use perion_assignment.Models.{DomainResult}
use perion_assignment.Models.Errors.{GoError, domain_error, error_text}
use perion_assignment.Analysis.{aggregate_results}
use perion_assignment.Analysis.Build.{IsOrder}
use perion_assignment.Analysis.Aggregate.{successes, aggregate_results_lem}
use perion_assignment.Http.{get_status_code_for_error, get_batch_status_code}

has_prefix-append : (p s t : Text) → has_prefix p s ≡ true → has_prefix p (s ++ t) ≡ true
unfolding has_prefix
has_prefix-append [] s t h = refl
has_prefix-append (c ∷ p) [] t h = cc
has_prefix-append (c ∷ p) (d ∷ s) t h = ground (arith, has_prefix-append p s t)

pub contains-append_right : (p s t : Text) → contains p t ≡ true → contains p (s ++ t) ≡ true
unfolding contains
contains-append_right p [] t h = h
contains-append_right p (c ∷ s) t h = ground (arith, contains-append_right p s t h)

pub contains-append_left : (p s t : Text) → contains p s ≡ true → contains p (s ++ t) ≡ true
unfolding contains has_prefix
contains-append_left [] [] [] h = refl
contains-append_left [] [] (c ∷ t) h = refl
contains-append_left (c ∷ p) [] t h = absurd (false≢true h)
contains-append_left p (c ∷ s) t h =
    ground (arith, contains-append_left p s t, has_prefix-append p (c ∷ s) t)

code_404 :
    (e : GoError)
    → (contains (codes "not found") (error_text e) ≡ true)
      ⊎ (contains (codes "404") (error_text e) ≡ true)
    → get_status_code_for_error e ≡ 404
unfolding get_status_code_for_error
code_404 e h = ground arith

-- A failure at a domain is answered with 404 when its cause says "not found", and, whatever the
-- cause is, when the name of the domain has "404" in it.
pub get_status_code-domain_error :
    (domain message : Text) (cause : GoError)
    → (contains (codes "not found") (error_text cause) ≡ true)
      ⊎ (contains (codes "404") domain ≡ true)
    → get_status_code_for_error (domain_error domain message cause) ≡ 404
unfolding error_text
get_status_code-domain_error domain message cause (inl says) =
    code_404 (domain_error domain message cause) (
      inl (
        contains-append_right (codes "not found")
          (codes "domain " ++ domain ++ codes ": " ++ message ++ codes ": ") (error_text cause)
          says))
get_status_code-domain_error domain message cause (inr named) =
    let found = contains-append_right (codes "404") (codes "domain ") domain named in
    code_404 (domain_error domain message cause) (
      inr (
        contains-append_left _ _ (error_text cause) (
          contains-append_left _ _ (codes ": ")
            (contains-append_left _ _ message (contains-append_left _ _ (codes ": ") found)))))

code_of :
    (failed succeeded good n : ℕ)
    → succeeded ≡ good
    → succeeded + failed ≡ n
    → (let code : ℕ = if failed == 0 then 200 else if succeeded == 0 then 400 else 207 in
        ((code ≡ 200) ↔ (good ≡ n))
        × ((code ≡ 207) ↔ ((0 < good) × (good < n)))
        × ((code ≡ 400) ↔ ((0 < n) × (good ≡ 0))))
code_of failed succeeded good n h k =
    ((ground arith, ground arith), (ground arith, ground arith), (ground arith, ground arith))

-- Of a batch whose results have all arrived, the code is 200 exactly when each of them is a success,
-- 207 exactly when some are and some are not, and 400 when there are results and none is a success.
pub get_batch_status_code_lem :
    (order : Dict ℕ → List (Text × ℕ)) (now n : ℕ) (arrived : List DomainResult)
    → IsOrder order
    → (let code = get_batch_status_code (aggregate_results order now n arrived) in
        ((code ≡ 200) ↔ (successes arrived ≡ length arrived))
        × ((code ≡ 207) ↔ ((0 < successes arrived) × (successes arrived < length arrived)))
        × ((code ≡ 400) ↔ ((0 < length arrived) × (successes arrived ≡ 0))))
unfolding get_batch_status_code
get_batch_status_code_lem order now n arrived o =
    let (_, good, all_counted, _, _, _) = aggregate_results_lem order o now n arrived in
    code_of _ _ (successes arrived) (length arrived) good all_counted
