-- ===== src/Cache/Redis/Examples.antt =====
-- A Redis in memory, a JSON package for analyses without advertisers, and the theorem on the domain
-- cache over them.
use perion_assignment.Common.{
  ℕ, zero, suc, ◌+◌, ◌≤◌, ◌≡◌, refl, Bool, true, false, Option, none, some, List, [], ◌∷◌, ltb,
  if◌then◌else◌, pos, magnitude, arith,
}
use perion_assignment.Text.{Text, codes, text_eq, text_eq_iff}
use perion_assignment.Dict.{Dict, get, put}
use perion_assignment.Dict.Laws.{get-put}
use perion_assignment.Models.{AdvertiserInfo, DomainAnalysis}
use perion_assignment.Models.Heap.{Heap, load, allocate}
use perion_assignment.Models.Errors.{Result, ok, err, plain, ok}
use perion_assignment.Cache.{Value, pointer}
use perion_assignment.Cache.DomainCache.{get_analysis, set_analysis}
use perion_assignment.Cache.Redis.{Client, redis_set}
use perion_assignment.Cache.Redis.Copies.{
  Stores, RoundTrips, over_redis, millisecond, get_analysis-redis,
}

abbrev live_text : (now : ℕ) → Option (Text × ℕ) → Option Text
live_text now none = none
live_text now (some (s, until)) = if ltb now until then some s else none

abbrev client : Client (Dict (Text × ℕ))
client = record {
  get_text = λ now key r. ok (live_text now (get key r));
  set_text = λ now key s ttl r. ok (put key (s, now + magnitude ttl) r);
  del = λ key r. ok r;
}

ok-inj : {A : Type 0} {a b : A} → Path (Result A) (ok a) (ok b) → a ≡ b
ok-inj h = cc

text_eq_self : (s : Text) → text_eq s s ≡ true
text_eq_self s = (text_eq_iff s s).1 refl

in_time : (now until : ℕ) → now + millisecond ≤ until → ltb now until ≡ true
in_time now until h = ground arith

client-Stores : Stores client
client-Stores set_at now key stored ttl r r' set h =
    rw
      (
        ← ok-inj set,
        get-put key key (stored, set_at + magnitude ttl) r,
        text_eq_self key,
        in_time now (set_at + magnitude ttl) h,
      )
      refl

abbrev flag : Bool → ℕ
flag false = 0
flag true = 1

abbrev is_flag : ℕ → Bool
is_flag zero = false
is_flag (suc n) = true

abbrev encoded :
    (domain : Text) (total : ℕ)
    → List AdvertiserInfo
    → (cached : Bool) (timestamp : ℕ) → Result Text
encoded domain total [] cached timestamp = ok (total ∷ flag cached ∷ timestamp ∷ domain)
encoded domain total (a ∷ rest) cached timestamp = err (plain (codes "advertisers"))

abbrev of_analysis : Option DomainAnalysis → Result Text
of_analysis none = err (plain (codes "nil"))
of_analysis (some d) = encoded d.domain d.total_advertisers d.advertisers d.cached d.timestamp

abbrev marshal : Heap → Value → Result Text
marshal heap (pointer address) = of_analysis (load address heap)
marshal heap _ = err (plain (codes "no pointer"))

abbrev unmarshal : Text → Result DomainAnalysis
unmarshal (total ∷ cached ∷ timestamp ∷ domain) = ok (record {
  domain = domain;
  total_advertisers = total;
  advertisers = [];
  cached = is_flag cached;
  timestamp = timestamp;
})
unmarshal _ = err (plain (codes "syntax"))

unmarshal-encoded :
    (domain : Text) (total : ℕ) (advertisers : List AdvertiserInfo) (cached : Bool) (timestamp : ℕ)
    (json : Text)
    → encoded domain total advertisers cached timestamp ≡ ok json
    → unmarshal json
      ≡ ok (record {
        domain = domain;
        total_advertisers = total;
        advertisers = advertisers;
        cached = cached;
        timestamp = timestamp;
      })
unmarshal-encoded domain total [] true timestamp json h = rw (← ok-inj h) refl
unmarshal-encoded domain total [] false timestamp json h = rw (← ok-inj h) refl
unmarshal-encoded domain total (a ∷ rest) cached timestamp json h = absurd (cc h)

marshal-RoundTrips : RoundTrips marshal unmarshal
marshal-RoundTrips heap address d json here is =
    unmarshal-encoded d.domain d.total_advertisers d.advertisers d.cached d.timestamp json
      (rw here at is)

abbrev empty_analysis : DomainAnalysis
empty_analysis = record {
  domain = codes "x.org";
  total_advertisers = 0;
  advertisers = [];
  cached = true;
  timestamp = 9;
}

abbrev after_set : Dict (Text × ℕ)
after_set = (codes "domain:x.org", (0 ∷ 1 ∷ 9 ∷ codes "x.org", 3_000_000_005)) ∷ []

sets :
    set_analysis
      (over_redis client marshal unmarshal (pos 7))
      5
      (codes "x.org")
      0
      (pos 3_000_000_000)
      (empty_analysis ∷ [])
      []
    ≡ ok after_set
unfolding set_analysis redis_set put
sets = refl

get_analysis-redis_example :
    get_analysis
      (over_redis client marshal unmarshal (pos 7))
      2_000_000_000
      (codes "x.org")
      after_set
      (empty_analysis ∷ [])
    ≡ ok (allocate empty_analysis (empty_analysis ∷ []))
get_analysis-redis_example =
    get_analysis-redis client marshal unmarshal (pos 7) (pos 3_000_000_000) 5 2_000_000_000
      (codes "x.org") 0 (empty_analysis ∷ []) (empty_analysis ∷ []) empty_analysis [] after_set
      client-Stores marshal-RoundTrips refl sets (omega arith)
