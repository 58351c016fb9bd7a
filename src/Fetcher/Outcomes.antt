-- ===== src/Fetcher/Outcomes.antt =====
-- What the fetcher of internal/fetcher/http.go gives.
use perion_assignment.Common.{
  ℕ, zero, suc, ◌<◌, ◌≤◌, ◌≡◌, refl, sym, ◌∙◌, ap, ◌≢◌, ◌↔◌, ◌⊎◌, inl, inr, true, false, none, some,
  List, [], ◌∷◌, leb, ◌==◌, length, take, arith, Bool-cases, Option-cases, ==_iff,
}
use perion_assignment.Text.{decimal, Text, codes, text_eq, has_prefix, contains}
use perion_assignment.Models.Errors.{
  GoError, domain_error, domain_not_found, wrapped, error_text, Result, ok, err,
}
use perion_assignment.Http.{get_status_code_for_error}
use perion_assignment.Http.Status.{get_status_code-domain_error}
use perion_assignment.Fetcher.{
  Reader, Answer, response, failed, too_large, read_body_with_limit, body_limit, Net, ads_txt_url,
  on_body, on_answer, on_request, fetch,
}

take_short : (n : ℕ) (s : List ℕ) → length s < n → take n s ≡ s
take_short zero s h = absurd (omega arith)
take_short (suc n) [] h = refl
take_short (suc n) (c ∷ s) h = ap (λ t. c ∷ t) (take_short n s (omega arith))

length-take : (n : ℕ) (s : List ℕ) → n ≤ length s → length (take n s) ≡ n
length-take zero s h = refl
length-take (suc n) [] h = absurd (omega arith)
length-take (suc n) (c ∷ s) h = omega (arith, length-take n s (omega arith))

leb-true : {m n : ℕ} → m ≤ n → leb m n ≡ true
leb-true h = ground arith

leb-false : {m n : ℕ} → n < m → leb m n ≡ false
leb-false h = ground arith

read_long :
    (body : Reader) (limit : ℕ)
    → limit ≤ length body.bytes
    → read_body_with_limit body limit ≡ err (too_large limit)
unfolding read_body_with_limit
read_long body limit h =
    let whole : leb limit (length (take limit body.bytes)) ≡ true =
      leb-true (omega (arith, length-take limit body.bytes h)) in
    elim (Option-cases body.failure) [
      | inl ends ↦ rw ends (rw whole refl)
      | inr (e, breaks) ↦ rw (breaks, leb-true h) (rw whole refl)
    ]

read_broken :
    (body : Reader) (limit : ℕ) (e : GoError)
    → length body.bytes < limit
    → body.failure ≡ some e
    → read_body_with_limit body limit ≡ err e
unfolding read_body_with_limit
read_broken body limit e h breaks = rw (breaks, leb-false h) refl

read_short :
    (body : Reader) (limit : ℕ)
    → length body.bytes < limit
    → body.failure ≡ none
    → read_body_with_limit body limit ≡ ok body.bytes
unfolding read_body_with_limit
read_short body limit h ends = rw (ends, take_short limit body.bytes h, leb-false h) refl

nat_cases : (m n : ℕ) → (m < n) ⊎ (n ≤ m)
nat_cases m n = ground arith

ok-inj : {a b : List ℕ} → Path (Result (List ℕ)) (ok a) (ok b) → a ≡ b
ok-inj h = cc

read_sound :
    (body : Reader) (limit : ℕ) (bytes : List ℕ)
    → read_body_with_limit body limit ≡ ok bytes
    → (length body.bytes < limit) × (body.failure ≡ none) × (body.bytes ≡ bytes)
read_sound body limit bytes h = elim (nat_cases (length body.bytes) limit) [
  | inr long ↦ absurd (cc (read_long body limit long))
  | inl short ↦ elim (Option-cases body.failure) [
    | inl ends ↦ (short, ends, ok-inj (sym (read_short body limit short ends) ∙ h))
    | inr (e, breaks) ↦ absurd (cc (read_broken body limit e short breaks))
  ]
]

-- A body is read exactly when it ends without an error after fewer bytes than the limit, and is then
-- read whole.
pub read_body_with_limit_iff :
    (body : Reader) (limit : ℕ) (bytes : List ℕ)
    → (read_body_with_limit body limit ≡ ok bytes)
      ↔ ((length body.bytes < limit) × (body.failure ≡ none) × (body.bytes ≡ bytes))
read_body_with_limit_iff body limit bytes = (
  read_sound body limit bytes,
  (λ (short, ends, same). read_short body limit short ends ∙ ap ok same),
)

err-inj : {e e' : GoError} → Path (Result Text) (err e) (err e') → e ≡ e'
err-inj h = cc

missing_text :
    contains
      (codes "not found")
      (error_text (wrapped (codes "ads.txt not found for domain: HTTP 404") domain_not_found))
    ≡ true
unfolding contains has_prefix error_text
missing_text = refl

module _ (net : Net) where
  on_body_ok :
      (r : Result (List ℕ)) (content : Text)
      → on_body net r ≡ ok content
      → (bytes : List ℕ) × (r ≡ ok bytes) × (content ≡ net.string_of bytes)
  unfolding on_body
  on_body_ok (ok bytes) content h = (bytes, refl, cc)
  on_body_ok (err e) content h = absurd (cc)

  -- The answers that give a content.
  abbrev Gives : Answer → Text → Type 0
  Gives answer content =
      (status : Text) × (body : Reader) × (answer ≡ response 200 status body)
      × (length body.bytes < body_limit)
      × (body.failure ≡ none)
      × (content ≡ net.string_of body.bytes)

  response_ok :
      (code : ℕ) (status : Text) (body : Reader) (content : Text)
      → on_answer net (response code status body) ≡ ok content
      → (code ≡ 200) × (on_body net (read_body_with_limit body body_limit) ≡ ok content)
  unfolding on_answer
  response_ok code status body content = elim (Bool-cases (code == 404)) [
    | inl missing ↦ rw missing (λ h. absurd (cc))
    | inr there ↦ elim (Bool-cases (code == 200)) [
      | inl good ↦ rw (there, good) (λ h. ((==_iff code 200).0 good, h))
      | inr bad ↦ rw (there, bad) (λ h. absurd (cc))
    ]
  ]

  answer_ok :
      (answer : Answer) (content : Text) → on_answer net answer ≡ ok content → Gives answer content
  answer_ok (failed true e) content h = absurd (unfold on_answer in cc)
  answer_ok (failed false e) content h = absurd (unfold on_answer in cc)
  answer_ok (response code status body) content h =
      let (good, read) = response_ok code status body content h in
      let (bytes, whole, same) = on_body_ok (read_body_with_limit body body_limit) content read in
      let (short, ends, all_read) = read_sound body body_limit bytes whole in
      (status, body, rw good refl, short, ends, rw all_read same)

  answer-Gives :
      (answer : Answer) (content : Text) → Gives answer content → on_answer net answer ≡ ok content
  unfolding on_answer on_body
  answer-Gives answer content (status, body, same, short, ends, is) =
      rw (same, read_short body body_limit short ends, is) refl

  asked :
      (domain : Text)
      → domain ≢ []
      → net.request_error (ads_txt_url net domain) ≡ none
      → fetch net domain ≡ on_answer net (net.send (ads_txt_url net domain))
  unfolding fetch on_request text_eq
  asked [] full made = absurd (full refl)
  asked (c ∷ domain) full made = rw made refl

  fetch_sound :
      (domain content : Text)
      → fetch net domain ≡ ok content
      → (domain ≢ [])
        × (net.request_error (ads_txt_url net domain) ≡ none)
        × Gives (net.send (ads_txt_url net domain)) content
  unfolding fetch on_request text_eq
  fetch_sound [] content h = absurd (cc)
  fetch_sound (c ∷ domain) content h =
      elim (Option-cases (net.request_error (ads_txt_url net (c ∷ domain)))) [
        | inl made ↦ ((λ e. cc), made, answer_ok _ content (rw made at h))
        | inr (e, refused) ↦ absurd (cc (rw refused at h))
      ]

  -- `Fetch` gives a content exactly when the domain is not empty, the request for its file is answered
  -- with status 200, and the body ends without an error below 1 MiB; the content is then this body.
  pub fetch_iff :
      (domain content : Text)
      → (fetch net domain ≡ ok content) ↔ (
          (domain ≢ [])
          × (net.request_error (ads_txt_url net domain) ≡ none)
          × ((status : Text) × (body : Reader) × (net.send (ads_txt_url net domain)
                ≡ response 200 status body)
              × (length body.bytes < body_limit)
              × (body.failure ≡ none)
              × (content ≡ net.string_of body.bytes)))
  fetch_iff domain content = (
    fetch_sound domain content,
    (λ (full, made, given). asked domain full made ∙ answer-Gives _ content given),
  )

  missing_error :
      (status : Text) (body : Reader)
      → on_answer net (response 404 status body)
        ≡ err (wrapped (codes "ads.txt not found for domain: HTTP 404") domain_not_found)
  unfolding on_answer error_text decimal
  missing_error status body = refl

  -- A missing file, which is answered with status 404, is an error at which the handler answers 404,
  -- for every domain and message under which the service reports it.
  pub fetch_missing :
      (domain status message : Text) (body : Reader) (e : GoError)
      → net.send (ads_txt_url net domain) ≡ response 404 status body
      → net.request_error (ads_txt_url net domain) ≡ none
      → domain ≢ []
      → fetch net domain ≡ err e
      → get_status_code_for_error (domain_error domain message e) ≡ 404
  fetch_missing domain status message body e sent made full h =
      let missing = missing_error status body in
      rw
        (sym (
          err-inj (sym missing ∙ ap (on_answer net) (sym sent) ∙ sym (asked domain full made) ∙ h)))
        (get_status_code-domain_error domain message _ (inl missing_text))
