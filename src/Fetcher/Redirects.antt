-- ===== src/Fetcher/Redirects.antt =====
-- What the client of internal/fetcher/http.go adds to net/http: `CheckRedirect`. The loop of net/http,
-- which makes the requests, is a parameter with what its documentation says of it.
pub mod Limit
use Prim.Native.String.{String}
use perion_assignment.Common.{
  ℕ, suc, ◌≡◌, Option, none, some, List, [], ◌∷◌, ◌++◌, if◌then◌else◌, leb, false,
}
use perion_assignment.Text.{Text, codes}
use perion_assignment.Models.Errors.{GoError, plain, wrapped, error_text}
use perion_assignment.Fetcher.{Answer, failed}

-- What a URL answers: a redirection, or an answer for the caller.
pub data Reply : Type 0 where
  redirect : (location : Text) → Reply
  final : Answer → Reply

-- `CheckRedirect`, with the number of the requests that were made.
unfoldable pub check_redirect : (via : ℕ) → Option GoError
check_redirect via = if leb 5 via then some (plain (codes "too many redirects")) else none

-- The URLs that were requested, and the answer of `client.Do`.
pub record Done : Type 0 where
  pub requested : List Text
  pub answer : Answer

abbrev pub done : Text → List Text → Answer → Done
done url behind answer = record { requested = url ∷ behind; answer = answer }

-- The error of the client, with the URL in quotation marks.
abbrev pub url_error : Text → GoError → GoError
url_error location e = wrapped (codes "Get \"" ++ location ++ codes "\": " ++ error_text e) e

-- What net/http documents of its loop, which requests a URL behind a number of other requests: it
-- answers what is no redirection, and asks `CheckRedirect` before it follows one.
pub record Client (replies : Text → Reply) (send : (via : ℕ) → Text → Done) : Type 0 where
  pub ends :
      {via : ℕ} {url : Text} {a : Answer} → replies url ≡ final a → send via url ≡ done url [] a
  pub refuses :
      {via : ℕ} {url location : Text} {e : GoError}
      → replies url ≡ redirect location
      → check_redirect (suc via) ≡ some e
      → send via url ≡ done url [] (failed false (url_error location e))
  pub follows :
      {via : ℕ} {url location : Text}
      → replies url ≡ redirect location
      → check_redirect (suc via) ≡ none
      → send via url ≡ done url (send (suc via) location).requested (send (suc via) location).answer

-- A number of redirections leads from one URL to another.
pub data Leads (replies : Text → Reply) : ℕ → Text → Text → Type 0 where
  stays : {url : Text} → Leads replies 0 url url
  hops :
      {n : ℕ} {url next last : Text}
      → replies url ≡ redirect next
      → Leads replies n next last
      → Leads replies (suc n) url last
