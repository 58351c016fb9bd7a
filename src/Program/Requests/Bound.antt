-- ===== src/Program/Requests/Bound.antt =====
-- What requests that run at the same time can ask of the server of main.go, and what they are answered.
use perion_assignment.Common.{
  ℕ, zero, suc, ◌+◌, ◌-◌, ◌*◌, ◌<◌, ◌≤◌, ◌≡◌, refl, ap, Bool, true, false, Option, none, some, List,
  [], ◌∷◌, ℤ, arith, length, Bool-cases, inl, inr, if◌then◌else◌,
}
use perion_assignment.Text.{Text, text_eq, text_eq_iff}
use perion_assignment.Dict.{Dict}
use perion_assignment.Models.{AdsTxtEntry, DomainAnalysis}
use perion_assignment.Models.Errors.{GoError, Result}
use perion_assignment.Float.{second}
use perion_assignment.Config.{Config}
use perion_assignment.Cache.{MemoryCache, cleanup_expired}
use perion_assignment.RateLimit.{TokenBucket, TwoTierRateLimiter, allow, get_or_create_ip_bucket}
use perion_assignment.RateLimit.Bucket.{max_capacity}
use perion_assignment.RateLimit.Interleaved.{
  Calls, idle, Move, asks, settles, gives_back, sweeps, on_bucket, settle_one, pick, give_back,
  move, run,
}
use perion_assignment.RateLimit.Interleaved.Valid.{IsSchedule}
use perion_assignment.RateLimit.Interleaved.PerIp.{times_in, run_for-bound, on_global-admitted}
use perion_assignment.Analysis.Service.{Parts, World}
use perion_assignment.Analysis.Shared as Shared
use perion_assignment.Analysis.Shared.{Pool, pool, Call, Answer, call, joins}
use perion_assignment.Analysis.Shared.Sound.{parts}
use perion_assignment.Analysis.Shared.Answers.{AllAnswers, new_pool, Run-answers}
use perion_assignment.Program.{new_limiter}
use perion_assignment.Program.Requests.Asked.{asked_for-le, asked_for-nobody}
use perion_assignment.Http.{Body}
use perion_assignment.Models.{BatchAnalysisRequest}
use perion_assignment.Program.Limits.{per_ip, global}
use perion_assignment.Program.Requests.{
  Site, site, joined, once_for_each, Run, rests, limits, enters, is_refused, works, admits_only,
  admits_nobody, asked_for,
}

-- Who is admitted stays admitted.
bucket-admits :
    (ip other : Text) (rest : List Text) (s : Calls) (trl : TwoTierRateLimiter)
    (a : TokenBucket × Bool)
    → times_in ip s.admitted ≤ times_in ip (on_bucket other rest s trl a).admitted
unfolding times_in
bucket-admits ip other rest s trl (b, true) = omega arith
bucket-admits ip other rest s trl (b, false) = omega arith

settle-admits :
    (ip : Text) (t_new t_ip : ℕ) (s : Calls) (picked : Option (Text × List Text))
    → times_in ip s.admitted ≤ times_in ip (settle_one t_new t_ip s picked).admitted
unfolding settle_one
settle-admits ip t_new t_ip s none = omega arith
settle-admits ip t_new t_ip s (some (other, rest)) =
    let (trl, bucket) = get_or_create_ip_bucket other t_new s.limiter in
    bucket-admits ip other rest s trl (allow t_ip bucket)

give_back-admits : (s : Calls) (n : ℕ) → (give_back s n).admitted ≡ s.admitted
unfolding give_back
give_back-admits s zero = refl
give_back-admits s (suc n) = refl

move-admits :
    (ip : Text) (m : Move) (s : Calls) → times_in ip s.admitted ≤ times_in ip (move m s).admitted
unfolding move
move-admits ip (asks other now) s =
    rw (on_global-admitted other s (allow now s.limiter.global_bucket)) (omega arith)
move-admits ip (settles k t_new t_ip) s = settle-admits ip t_new t_ip s (pick k s.holding)
move-admits ip gives_back s = rw (give_back-admits s s.returning) (omega arith)
move-admits ip (sweeps now) s = omega arith

module _ {S : Type 0} (parts : Parts S) (sweep : ℕ → S → S)
    (Served : (domain content : Text) → Type 0) (decode : Text → Result BatchAnalysisRequest)
    (encode : Body → Option GoError) where
  Run-limiter :
      {moves : List Move} {s t : Site S}
      → Run parts sweep Served decode encode moves s t
      → t.limiter ≡ run moves s.limiter
  unfolding run
  Run-limiter rests = refl
  Run-limiter (limits m run) = Run-limiter run
  Run-limiter (enters ip route r free run) = Run-limiter run
  Run-limiter (is_refused ip route r run) = Run-limiter run
  Run-limiter (works step on run) = Run-limiter run

  joins_all :
      (domains : List Text) (calls : List Call) (w : World S) (answers : List Answer) {q : Pool S}
      → Shared.Run parts sweep Served (pool (joined domains calls) w answers) q
      → Shared.Run parts sweep Served (pool calls w answers) q
  joins_all [] calls w answers run = run
  joins_all (domain ∷ domains) calls w answers run =
      Shared.steps (joins domain)
        (joins_all domains (call domain Shared.asks ∷ calls) w answers run)

  Run-analyses :
      {moves : List Move} {s t : Site S}
      → Run parts sweep Served decode encode moves s t
      → Shared.Run parts sweep Served s.analyses t.analyses
  Run-analyses rests = Shared.rests
  Run-analyses (limits m run) = Run-analyses run
  Run-analyses (enters ip route r {calls = calls} {w = w} {answers = answers} free run) =
      joins_all (asked_for decode encode (admits_only ip) route r) calls w answers
        (Run-analyses run)
  Run-analyses (is_refused ip route r {calls = calls} {w = w} {answers = answers} run) =
      joins_all (asked_for decode encode admits_nobody route r) calls w answers (Run-analyses run)
  Run-analyses (works step on run) = Shared.steps step (Run-analyses run)

  -- What was handed on was admitted, and asks for a hundred analyses at most.
  abbrev IsPaid : Text → Site S → Type 0
  IsPaid ip s =
      (times_in ip s.entered ≤ times_in ip s.limiter.admitted)
      × (times_in ip s.asked ≤ 100 * times_in ip s.entered)

  asked_of :
      (ip other : Text) (domains asked : List Text)
      → times_in ip (once_for_each other domains asked)
        ≡ (if text_eq other ip then length domains else 0) + times_in ip asked
  unfolding times_in
  asked_of ip other [] asked = ground arith
  asked_of ip other (domain ∷ domains) asked = ground (arith, asked_of ip other domains asked)

  enters-IsPaid :
      (ip other : Text) (domains entered asked : List Text) (admitted : List Text)
      → times_in other entered < times_in other admitted
      → length domains ≤ 100
      → (times_in ip entered ≤ times_in ip admitted)
        × (times_in ip asked ≤ 100 * times_in ip entered)
      → (times_in ip (other ∷ entered) ≤ times_in ip admitted)
        × (times_in ip (once_for_each other domains asked) ≤ 100 * times_in ip (other ∷ entered))
  unfolding times_in
  enters-IsPaid ip other domains entered asked admitted free few (paid, hundred) =
      elim (Bool-cases (text_eq other ip)) [
        | inl same ↦
            let room = rw ((text_eq_iff other ip).0 same) at free in
            let all_asked = rw same at (asked_of ip other domains asked) in
            rw same (omega (arith, room), omega (arith, hundred, few, all_asked))
        | inr different ↦
            let none_asked = rw different at (asked_of ip other domains asked) in
            rw different (omega (arith, paid), omega (arith, hundred, none_asked))
      ]

  Run-IsPaid :
      (ip : Text) {moves : List Move} {s t : Site S}
      → Run parts sweep Served decode encode moves s t
      → IsPaid ip s
      → IsPaid ip t
  Run-IsPaid ip rests h = h
  Run-IsPaid ip (limits m {limiter = limiter} run) (paid, hundred) =
      Run-IsPaid ip run (omega (arith, paid, move-admits ip m limiter), hundred)
  Run-IsPaid ip
        (enters other route r {limiter = limiter} {entered = entered} {asked = asked} free run) h =
      Run-IsPaid ip run (
        enters-IsPaid ip other (asked_for decode encode (admits_only other) route r) entered asked
          limiter.admitted free (asked_for-le decode encode (admits_only other) route r) h)
  Run-IsPaid ip (is_refused other route r {asked = asked} run) (paid, hundred) =
      Run-IsPaid ip run (paid, rw (asked_for-nobody decode encode route r) hundred)
  Run-IsPaid ip (works step on run) h = Run-IsPaid ip run h

module _ (parse : Text → Result (List AdsTxtEntry)) (order : Dict ℕ → List (Text × ℕ))
    (Served : (domain content : Text) → Type 0) (unmarshal : Text → Result DomainAnalysis) (ttl : ℤ)
    (fetch : Text → Result Text) (cfg : Config) (now : ℕ)
    (decode : Text → Result BatchAnalysisRequest) (encode : Body → Option GoError) where
  -- The server as it starts.
  abbrev pub opened : Site MemoryCache
  opened = site (idle (new_limiter cfg now)) (new_pool parse order Served unmarshal ttl fetch) [] []

  abbrev pub Moves : List Move → Site MemoryCache → Type 0
  Moves moves t =
      Run (parts parse order Served unmarshal ttl fetch) cleanup_expired Served decode encode moves
        opened t

  -- With limits of two million at most, and the limiter's clock not going back: however many requests
  -- run at the same time, and however their steps follow one another, the analyses that a client
  -- address asks for are at most a hundred for each request that the limit of an address allows in
  -- the whole time and in one second more; and each answer is an analysis of a content that was
  -- served for its own domain, or an error at this domain.
  pub requests_bound :
      (ip : Text) (moves : List Move) (until : ℕ) (t : Site MemoryCache)
      → global cfg ≤ max_capacity
      → per_ip cfg ≤ max_capacity
      → IsSchedule now moves until
      → Moves moves t
      → (times_in ip t.asked * second ≤ 100 * (per_ip cfg * second + (until - now) * per_ip cfg))
        × AllAnswers parse order Served t.analyses.answers
  unfolding new_limiter
  requests_bound ip moves until t few few' h run =
      let service = parts parse order Served unmarshal ttl fetch in
      let (paid, hundred) =
        Run-IsPaid service cleanup_expired Served decode encode ip run
          (unfold times_in in (omega arith, omega arith)) in
      let bound =
        run_for-bound (global cfg) (global cfg) (per_ip cfg) (per_ip cfg) now ip moves until few
          few' (omega arith) h in
      let same =
        ap (λ (s : Calls). times_in ip s.admitted)
          (Run-limiter service cleanup_expired Served decode encode run) in
      (
        omega (arith, paid, hundred, bound, same),
        Run-answers parse order Served unmarshal ttl fetch t.analyses
            (Run-analyses service cleanup_expired Served decode encode run),
      )
