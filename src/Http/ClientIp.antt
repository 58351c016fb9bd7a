-- ===== src/Http/ClientIp.antt =====
-- `getClientIP` of internal/http/middlewares.go, with `net.SplitHostPort`.
pub mod Remote
use Prim.Native.String.{String}
use perion_assignment.Common.{
  ℕ, zero, suc, ◌+◌, ◌-◌, Bool, true, false, ◌||◌, Option, none, some, List, [], ◌∷◌, ◌++◌,
  if◌then◌else◌, ◌==◌, length, take,
}
use perion_assignment.Text.{Text, codes, text_eq, split, first_part, trim_space, contains}
use perion_assignment.Models.Errors.{GoError, plain, Result, ok, err}

-- Where a code point first stands in a text, and where it last does.
abbrev pub plus_one : Option ℕ → Option ℕ
plus_one none = none
plus_one (some n) = some (suc n)

unfoldable pub index_of : ℕ → Text → Option ℕ
index_of c [] = none
index_of c (d ∷ s) = let later = index_of c s in if d == c then some 0 else plus_one later

-- The position behind the head if there is one, or else the head itself.
abbrev pub or_here : Bool → Option ℕ → Option ℕ
or_here here (some n) = some (suc n)
or_here true none = some 0
or_here false none = none

unfoldable pub last_index_of : ℕ → Text → Option ℕ
last_index_of c [] = none
last_index_of c (d ∷ s) = or_here (d == c) (last_index_of c s)

-- `s[n:]`.
unfoldable pub drop : ℕ → Text → Text
drop zero s = s
drop (suc n) [] = []
drop (suc n) (c ∷ s) = drop n s

abbrev pub has : ℕ → Text → Bool
has c s = contains (c ∷ []) s

abbrev pub addr_error : Text → Text → Result (Text × Text)
addr_error address why = err (plain (codes "address " ++ address ++ codes ": " ++ why))

-- The checks for brackets that are left, behind position `j` and behind position `k`.
abbrev pub checked_host : (address host : Text) → (i j k : ℕ) → Result (Text × Text)
checked_host address host i j k =
    if has b'[' (drop j address)
    then addr_error address (codes "unexpected '[' in address")
    else if has b']' (drop k address)
    then addr_error address (codes "unexpected ']' in address")
    else ok (host, drop (suc i) address)

-- An address that begins with a bracket, with the place of the first closing one; the last colon
-- stands at `i`.
abbrev pub bracketed : (address : Text) → (i : ℕ) → Option ℕ → Result (Text × Text)
bracketed address i none = addr_error address (codes "missing ']' in address")
bracketed address i (some end) =
    if suc end == length address
    then addr_error address (codes "missing port in address")
    else if suc end == i
    then checked_host address (drop 1 (take end address)) i 1 (suc end)
    else if text_eq (take 1 (drop (suc end) address)) (codes ":")
    then addr_error address (codes "too many colons in address")
    else addr_error address (codes "missing port in address")

abbrev pub unbracketed : (address : Text) → (i : ℕ) → Result (Text × Text)
unbracketed address i =
    if has b':' (take i address)
    then addr_error address (codes "too many colons in address")
    else checked_host address (take i address) i 0 0

-- From the last colon on.
abbrev pub at_colon : Text → Option ℕ → Result (Text × Text)
at_colon address none = addr_error address (codes "missing port in address")
at_colon address (some i) =
    if text_eq (take 1 address) (codes "[")
    then bracketed address i (index_of b']' address)
    else unbracketed address i

-- `net.SplitHostPort`.
unfoldable pub split_host_port : Text → Result (Text × Text)
split_host_port address = at_colon address (last_index_of b':' address)

abbrev pub host_or : Text → Result (Text × Text) → Text
host_or address (ok (host, port)) = host
host_or address (err e) = address

-- `getClientIP`, of the two headers, empty if they are missing, and of the address of the connection.
unfoldable pub get_client_ip : (forwarded_for real_ip remote_addr : Text) → Text
get_client_ip (c ∷ forwarded_for) real_ip remote_addr =
    trim_space (first_part (split b',' (c ∷ forwarded_for)))
get_client_ip [] (c ∷ real_ip) remote_addr = c ∷ real_ip
get_client_ip [] [] remote_addr = host_or remote_addr (split_host_port remote_addr)
