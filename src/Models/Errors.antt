-- ===== src/Models/Errors.antt =====
-- internal/models/errors.go: the sentinel errors and `DomainError`. A Go error is the text that
-- `errors.New` or `fmt.Errorf` gave it, with the error that a `%w` wraps, or a `DomainError`.
use perion_assignment.Common.{
  ℕ, Bool, true, false, ◌||◌, Option, none, some, ◌++◌, ◌≡◌, refl, ◌⊎◌, arith, [], ◌∷◌,
}
use perion_assignment.Text.{Text, codes}

-- `sentinel n` is the n-th variable of the block of `errors.New`; `wrapped text cause` is
-- `fmt.Errorf` with one `%w`; `plain text` is `fmt.Errorf` without, or another package's error.
pub data GoError : Type 0 where
  domain_not_found invalid_domain fetch_timeout rate_limit_exceeded cache_unavailable : GoError
  invalid_ads_txt_format : GoError
  plain : Text → GoError
  wrapped : Text → GoError → GoError
  domain_error : (domain message : Text) → GoError → GoError
  domain_error_nil : (domain message : Text) → GoError

-- `Error()`. The text of a wrapping error is the formatted whole.
unfoldable pub error_text : GoError → Text
error_text domain_not_found = codes "ads.txt not found for domain"
error_text invalid_domain = codes "invalid domain format"
error_text fetch_timeout = codes "timeout while fetching ads.txt"
error_text rate_limit_exceeded = codes "rate limit exceeded"
error_text cache_unavailable = codes "cache service unavailable"
error_text invalid_ads_txt_format = codes "invalid ads.txt format"
error_text (plain text) = text
error_text (wrapped text cause) = text
error_text (domain_error domain message cause) =
    codes "domain " ++ domain ++ codes ": " ++ message ++ codes ": " ++ error_text cause
error_text (domain_error_nil domain message) = codes "domain " ++ domain ++ codes ": " ++ message

unfoldable pub unwrap : GoError → Option GoError
unwrap (wrapped text cause) = some cause
unwrap (domain_error domain message cause) = some cause
unwrap _ = none

-- `NewDomainError`, which may be given no cause.
unfoldable pub new_domain_error : Text → Text → Option GoError → GoError
new_domain_error domain message (some cause) = domain_error domain message cause
new_domain_error domain message none = domain_error_nil domain message

-- `errors.Is`: the chain of causes reaches the target.
pub data Is (target : GoError) : GoError → Type 0 where
  here : Is target target
  under : {err cause : GoError} → unwrap err ≡ some cause → Is target cause → Is target err

-- A value or an error, for the pairs `(T, error)` that the functions return.
pub data Result {ℓ} (A : Type ℓ) : Type ℓ where
  ok : A → Result A
  err : GoError → Result A

infixl 5 ◌>>=◌
abbrev pub ◌>>=◌ {ℓ κ} : {A : Type ℓ} {B : Type κ} → Result A → (A → Result B) → Result B
ok a >>= f = f a
err e >>= f = err e

pub Result-cases {ℓ} :
    {A : Type ℓ} (r : Result A) → ((a : A) × (r ≡ ok a)) ⊎ ((e : GoError) × (r ≡ err e))
Result-cases (ok a) = perion_assignment.Common.inl (a, refl)
Result-cases (err e) = perion_assignment.Common.inr (e, refl)
