-- ===== src/Http/ClientIp/Remote.antt =====
-- What `getClientIP` makes of the address of a connection.
use perion_assignment.Common.{
  ℕ, suc, ◌≡◌, refl, ◌∙◌, ap, true, false, not, none, some, [], ◌∷◌, ◌++◌, if◌then◌else◌, ◌==◌,
  length, take, arith, all-append, length-append, Bool-cases, inl, inr,
}
use perion_assignment.Text.{Text, codes, text_eq, contains, has_prefix}
use perion_assignment.Text.Split.{Lacks}
use perion_assignment.Models.Errors.{ok}
use perion_assignment.Http.ClientIp.{
  index_of, last_index_of, drop, has, split_host_port, get_client_ip,
}

has_of_Lacks : (c : ℕ) (s : Text) → Lacks c s → has c s ≡ false
unfolding contains has_prefix
has_of_Lacks c [] h = refl
has_of_Lacks c (d ∷ s) h = ground (arith, has_of_Lacks c s)

last_index_of-Lacks : (c : ℕ) (s : Text) → Lacks c s → last_index_of c s ≡ none
unfolding last_index_of
last_index_of-Lacks c [] h = refl
last_index_of-Lacks c (d ∷ s) h = ground (arith, last_index_of-Lacks c s)

last_index_of-append :
    (c : ℕ) (s t : Text) → Lacks c t → last_index_of c (s ++ c ∷ t) ≡ some (length s)
unfolding last_index_of
last_index_of-append c [] t h = rw (last_index_of-Lacks c t h) (ground arith)
last_index_of-append c (d ∷ s) t h = rw (last_index_of-append c s t h) refl

index_of-append : (c : ℕ) (s t : Text) → Lacks c s → index_of c (s ++ c ∷ t) ≡ some (length s)
unfolding index_of
index_of-append c [] t h = ground arith
index_of-append c (d ∷ s) t h = ground (arith, index_of-append c s t)

take-append : (s t : Text) → take (length s) (s ++ t) ≡ s
take-append [] t = refl
take-append (c ∷ s) t = ap (λ r. c ∷ r) (take-append s t)

drop-append : (s t : Text) → drop (length s) (s ++ t) ≡ t
unfolding drop
drop-append [] t = refl
drop-append (c ∷ s) t = drop-append s t

drop-behind : (c : ℕ) (s t : Text) → drop (suc (length s)) (s ++ c ∷ t) ≡ t
unfolding drop
drop-behind c [] t = refl
drop-behind c (d ∷ s) t = drop-behind c s t

Lacks-around :
    (c d : ℕ) (s t : Text) → Lacks c s → Lacks c t → not (d == c) ≡ true → Lacks c (s ++ d ∷ t)
Lacks-around c d s t h k other = all-append (λ x. not (x == c)) s (d ∷ t) ∙ ground arith

-- A text without brackets and colons.
abbrev pub IsPlain : Text → Type 0
IsPlain s = Lacks b':' s × Lacks b'[' s × Lacks b']' s

no_bracket : (s t : Text) → Lacks b'[' s → text_eq (take 1 (s ++ b':' ∷ t)) (codes "[") ≡ false
unfolding text_eq
no_bracket [] t h = refl
no_bracket (c ∷ s) t h = ground arith

split-plain :
    (host port : Text)
    → IsPlain host
    → IsPlain port
    → split_host_port (host ++ b':' ∷ port) ≡ ok (host, port)
unfolding split_host_port drop
split-plain host port (colon, left, right) (colon', left', right') =
    rw
      (
        last_index_of-append b':' host port colon',
        no_bracket host port left,
        take-append host (b':' ∷ port),
        has_of_Lacks b':' host colon,
        has_of_Lacks b'[' (host ++ b':' ∷ port) (Lacks-around b'[' b':' host port left left' refl),
        has_of_Lacks b']' (host ++ b':' ∷ port)
            (Lacks-around b']' b':' host port right right' refl),
        drop-behind b':' host port,
      )
      refl

-- `[host]:port`.
abbrev in_brackets : Text → Text → Text
in_brackets host port = b'[' ∷ (host ++ b']' ∷ b':' ∷ port)

closing :
    (host port : Text)
    → Lacks b']' host
    → index_of b']' (in_brackets host port) ≡ some (suc (length host))
unfolding index_of
closing host port right = rw (index_of-append b']' host (b':' ∷ port) right) refl

last_colon :
    (host port : Text)
    → Lacks b':' port
    → last_index_of b':' (in_brackets host port) ≡ some (suc (suc (length host)))
unfolding last_index_of
last_colon host port colon = rw (inner host) refl
  where
    inner : (s : Text) → last_index_of b':' (s ++ b']' ∷ b':' ∷ port) ≡ some (suc (length s))
    inner [] = rw (last_index_of-Lacks b':' port colon) refl
    inner (c ∷ s) = rw (inner s) refl

drop-two : (s : Text) (c d : ℕ) (t : Text) → drop (suc (suc (length s))) (s ++ c ∷ d ∷ t) ≡ t
unfolding drop
drop-two [] c d t = refl
drop-two (e ∷ s) c d t = drop-two s c d t

-- The colon is not the end of the address.
not_the_end :
    (host port : Text) → (suc (suc (length host)) == length (in_brackets host port)) ≡ false
not_the_end host port = rw (length-append host (b']' ∷ b':' ∷ port)) (ground arith)

equal_self : (n : ℕ) → (n == n) ≡ true
equal_self n = ground arith

-- Behind the bracket at the front, no other one opens; behind the closing one, no other one closes.
no_other_left :
    (host port : Text)
    → Lacks b'[' host
    → Lacks b'[' port
    → has b'[' (host ++ b']' ∷ b':' ∷ port) ≡ false
no_other_left host port left left' =
    has_of_Lacks b'[' (host ++ b']' ∷ b':' ∷ port)
      (Lacks-around b'[' b']' host (b':' ∷ port) left left' refl)

split-bracketed :
    (host port : Text)
    → Lacks b'[' host
    → Lacks b']' host
    → IsPlain port
    → split_host_port (in_brackets host port) ≡ ok (host, port)
unfolding split_host_port drop text_eq
split-bracketed host port left right (colon', left', right') =
    rw
      (
        last_colon host port colon',
        closing host port right,
        not_the_end host port,
        equal_self (suc (suc (length host))),
        take-append host (b']' ∷ b':' ∷ port),
        no_other_left host port left left',
        drop-behind b']' host (b':' ∷ port),
        has_of_Lacks b']' (b':' ∷ port) right',
        drop-two host b']' b':' port,
      )
      refl

-- `net.JoinHostPort`, which net/http writes the address of a connection with.
unfoldable pub join_host_port : Text → Text → Text
join_host_port host port = if has b':' host then in_brackets host port else host ++ b':' ∷ port

Lacks-has : (c : ℕ) (s : Text) → has c s ≡ false → Lacks c s
unfolding contains has_prefix
Lacks-has c [] h = refl
Lacks-has c (d ∷ s) h = ground (arith, Lacks-has c s)

-- Of a request with neither header, the client is the host that the connection comes from, whether
-- it has the form of an IPv4 or of an IPv6 address, provided that it has no bracket in it and that
-- the port has none and no colon.
pub get_client_ip-join_host_port :
    (host port : Text)
    → Lacks b'[' host
    → Lacks b']' host
    → IsPlain port
    → get_client_ip [] [] (join_host_port host port) ≡ host
unfolding get_client_ip join_host_port
get_client_ip-join_host_port host port left right plain_port = elim (Bool-cases (has b':' host)) [
  | inl colon ↦ rw (colon, split-bracketed host port left right plain_port) refl
  | inr none_there ↦
      rw
        (none_there, split-plain host port (Lacks-has b':' host none_there, left, right) plain_port)
        refl
]
