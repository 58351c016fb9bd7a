-- ===== src/Fetcher/Examples.antt =====
-- Runs of internal/fetcher/http.go, and the theorems on the fetcher at them.
use perion_assignment.Common.{
  sym, ℕ, zero, suc, ◌-◌, ◌≤◌, ◌⊎◌, false, some, arith, length, ◌<◌, ◌≡◌, refl, ◌≢◌, ◌↔◌, none, [],
  ◌∷◌,
}
use perion_assignment.Text.{Text, codes, has_prefix, drop_as, trim_prefix, split, text_eq, decimal}
use perion_assignment.Models.Errors.{GoError, plain, domain_not_found, wrapped, error_text, ok, err}
use perion_assignment.Fetcher.{
  Reader, failed, response, read_body_with_limit, body_limit, Net, host_or_cleaned,
  normalize_domain, ads_txt_url, on_body, on_answer, on_request, fetch,
}
use perion_assignment.Fetcher.Redirects.{
  Reply, redirect, final, check_redirect, Done, done, Client, hops, stays, url_error,
}
use perion_assignment.Fetcher.Redirects.Limit.{IsTooMany, redirects_bound}
use perion_assignment.Fetcher.Outcomes.{fetch_iff}

-- What the runs unfold.
fetcher : Unit {0}
unfolding has_prefix drop_as trim_prefix split text_eq decimal error_text host_or_cleaned
    normalize_domain ads_txt_url on_body on_answer on_request fetch read_body_with_limit
fetcher = tt

abbrev short : Reader
short = record { bytes = 97 ∷ 98 ∷ []; failure = none }

-- A network on which no URL parses, and every file is `short`, or is missing.
abbrev serving : Net
serving = record {
  host_of = λ url. none;
  request_error = λ url. none;
  send = λ url. response 200 (codes "200 OK") short;
  string_of = λ bytes. bytes;
}

abbrev without_files : Net
without_files = record {
  host_of = λ url. none;
  request_error = λ url. none;
  send = λ url. response 404 (codes "404 Not Found") short;
  string_of = λ bytes. bytes;
}

abbrev missing : GoError
missing = wrapped (codes "ads.txt not found for domain: HTTP 404") domain_not_found

not_found : fetch without_files (codes "x.org") ≡ err missing
unfolding fetcher
not_found = refl

runs :
    (normalize_domain serving (codes "https://x.org/path") ≡ codes "x.org")
    × (ads_txt_url serving (codes "x.org") ≡ codes "https://x.org/ads.txt")
    × (read_body_with_limit short 3 ≡ ok (97 ∷ 98 ∷ []))
unfolding fetcher
runs = (refl, refl, refl)

fetch_iff_example : (fetch serving (codes "x.org") ≡ ok (codes "ab")) ↔ (
    (codes "x.org" ≢ [])
    × (serving.request_error (ads_txt_url serving (codes "x.org")) ≡ none)
    × ((status : Text) × (body : Reader) × (serving.send (ads_txt_url serving (codes "x.org"))
          ≡ response 200 status body)
        × (length body.bytes < body_limit)
        × (body.failure ≡ none)
        × (codes "ab" ≡ body.bytes)))
fetch_iff_example = fetch_iff serving (codes "x.org") (codes "ab")

-- A loop of net/http: four requests may follow the first one.
abbrev loop_on : (Text → Reply) → Reply → (fuel via : ℕ) → Text → Done
loop_on replies (final a) fuel via url = done url [] a
loop_on replies (redirect location) zero via url =
    done url [] (failed false (url_error location (plain (codes "too many redirects"))))
loop_on replies (redirect location) (suc fuel) via url =
    let rest = loop_on replies (replies location) fuel (suc via) location in
    done url rest.requested rest.answer

abbrev loop : (Text → Reply) → (via : ℕ) → Text → Done
loop replies via url = loop_on replies (replies url) (4 - via) via url

no_room :
    (via : ℕ) (e : GoError)
    → check_redirect (suc via) ≡ some e
    → (4 - via ≡ 0) × (plain (codes "too many redirects") ≡ e)
unfolding check_redirect
no_room via e h = ground arith

room : (via : ℕ) → check_redirect (suc via) ≡ none → 4 - via ≡ suc (4 - suc via)
unfolding check_redirect
room via h = ground arith

loop-Client : (replies : Text → Reply) → Client replies (loop replies)
loop-Client replies = record {
  ends = λ e. rw e refl;
  refuses = λ {via = via} {e = e} r refused.
      let (none_left, same) = no_room via e refused in rw (r, none_left, sym same) refl;
  follows = λ {via = via} r allowed. rw (r, room via allowed) refl;
}

-- A URL that has a letter more redirects to the URL without it.
abbrev shorter : Text → Reply
shorter [] = final (response 200 (codes "200 OK") short)
shorter (c ∷ rest) = redirect rest

redirects_bound_example :
    ((6 ≤ 4)
      × ((loop shorter 0 (codes "abcdef")).answer ≡ response 200 (codes "200 OK") short)
      × (length (loop shorter 0 (codes "abcdef")).requested ≡ 7))
    ⊎ ((5 ≤ 6)
        × IsTooMany (loop shorter 0 (codes "abcdef")).answer
        × (length (loop shorter 0 (codes "abcdef")).requested ≡ 5))
redirects_bound_example =
    redirects_bound (loop-Client shorter) 6 (codes "abcdef") []
      (response 200 (codes "200 OK") short)
      (hops refl (hops refl (hops refl (hops refl (hops refl (hops refl stays)))))) refl
