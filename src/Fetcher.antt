-- ===== src/Fetcher.antt =====
-- internal/fetcher/http.go: the fetcher of ads.txt files. `url.Parse`, the requests and responses of
-- net/http and the reading of bytes as a string are parameters.
pub mod Outcomes
pub mod Redirects
mod Examples
use Prim.Native.String.{String}
use perion_assignment.Common.{
  ℕ, zero, suc, Bool, true, false, Option, none, some, List, [], ◌∷◌, ◌++◌, if◌then◌else◌, leb,
  ◌==◌, length, take, not,
}
use perion_assignment.Text.{first_part, decimal, Text, codes, text_eq, trim_prefix, split, contains}
use perion_assignment.Models.Errors.{
  GoError, invalid_domain, fetch_timeout, domain_not_found, plain, wrapped, error_text, Result, ok,
  err, ◌>>=◌,
}

-- A body to read: its bytes, and the error that reading behind them gives in place of the end.
pub record Reader : Type 0 where
  pub bytes : List ℕ
  pub failure : Option GoError

-- What `client.Do` gives: a response, or an error, with whether the context's deadline had passed.
pub data Answer : Type 0 where
  response : (status_code : ℕ) → (status : Text) → (body : Reader) → Answer
  failed : (deadline_exceeded : Bool) → GoError → Answer

-- `ReadAll` of the reader that stops after `max_size` bytes.
abbrev pub read_all : (max_size : ℕ) → Reader → Result (List ℕ)
read_all max_size body = elim body.failure [
  | none ↦ ok (take max_size body.bytes)
  | some e ↦ if leb max_size (length body.bytes) then ok (take max_size body.bytes) else err e
]

abbrev pub too_large : (max_size : ℕ) → GoError
too_large max_size =
    plain (codes "ads.txt file too large (exceeds " ++ decimal max_size ++ codes " bytes)")

-- The check behind it.
abbrev pub within_limit : (max_size : ℕ) → List ℕ → Result (List ℕ)
within_limit max_size data_read =
    if leb max_size (length data_read) then err (too_large max_size) else ok data_read

-- `readBodyWithLimit`.
unfoldable pub read_body_with_limit : Reader → (max_size : ℕ) → Result (List ℕ)
read_body_with_limit body max_size = read_all max_size body >>= within_limit max_size

-- `1024*1024`.
abbrev pub body_limit : ℕ
body_limit = 1_048_576

-- The part of net/http and net/url that the fetcher calls. `host_of` is the `Hostname` of a parsed
-- URL, and `request_error` the error of `NewRequestWithContext`.
pub record Net : Type 0 where
  pub host_of : Text → Option Text
  pub request_error : Text → Option GoError
  pub send : (url : Text) → Answer
  pub string_of : List ℕ → Text

module _ (net : Net) where
  -- The host of a URL, or what stands before the first slash of one that does not parse.
  unfoldable pub host_or_cleaned : Text → Option Text → Text
  host_or_cleaned url (some host) = host
  host_or_cleaned url none = first_part (split b'/' (trim_prefix (codes "http://") url))

  -- `normalizeDomain`, whose branches on a slash are the same.
  unfoldable pub normalize_domain : Text → Text
  normalize_domain domain =
      let bare = trim_prefix (codes "https://") (trim_prefix (codes "http://") domain) in
      host_or_cleaned (codes "http://" ++ bare) (net.host_of (codes "http://" ++ bare))

  -- The URL of a domain's file.
  unfoldable pub ads_txt_url : Text → Text
  ads_txt_url domain = codes "https://" ++ normalize_domain domain ++ codes "/ads.txt"

  -- `Fetch` from the body on.
  unfoldable pub on_body : Result (List ℕ) → Result Text
  on_body (ok bytes) = ok (net.string_of bytes)
  on_body (err e) = err (wrapped (codes "failed to read response body: " ++ error_text e) e)

  -- `Fetch` from the answer of the client on.
  unfoldable pub on_answer : Answer → Result Text
  on_answer (failed true e) =
      err (wrapped (error_text fetch_timeout ++ codes ": " ++ error_text e) fetch_timeout)
  on_answer (failed false e) = err (wrapped (codes "failed to fetch ads.txt: " ++ error_text e) e)
  on_answer (response status_code status body) =
      if status_code == 404
      then err (
          wrapped (error_text domain_not_found ++ codes ": HTTP " ++ decimal status_code)
            domain_not_found)
      else if not (status_code == 200)
      then err
          (plain (codes "unexpected HTTP status: " ++ decimal status_code ++ codes " " ++ status))
      else on_body (read_body_with_limit body body_limit)

  -- `Fetch` from the new request on.
  unfoldable pub on_request : Text → Option GoError → Result Text
  on_request url (some e) = err (wrapped (codes "failed to create request: " ++ error_text e) e)
  on_request url none = on_answer (net.send url)

  -- `Fetch`.
  unfoldable pub fetch : Text → Result Text
  fetch domain =
      if text_eq domain []
      then err invalid_domain
      else on_request (ads_txt_url domain) (net.request_error (ads_txt_url domain))
