-- ===== src/Program/Requests/Examples.antt =====
-- A request that the limiter admits and whose file cannot be had, and the theorem on the server there.
use perion_assignment.Common.{
  Option, none, ℕ, ◌+◌, ◌-◌, ◌*◌, ◌<◌, ◌≤◌, ◌≡◌, refl, List, [], ◌∷◌, pos, arith,
}
use perion_assignment.Text.{Text, codes, text_eq}
use perion_assignment.Dict.{Dict, get, put}
use perion_assignment.Models.{DomainAnalysis, AdsTxtEntry}
use perion_assignment.Models.Errors.{domain_not_found, Result, ok, err}
use perion_assignment.Float.{
  second, scaled_seconds, int64_of, product, seconds, round, round_up, round_down, nearest,
}
use perion_assignment.Config.{load, scan, atoi, in_seconds, get_env, get_int_env, get_duration_env}
use perion_assignment.Cache.{MemoryCache, new_memory_cache, memory_get}
use perion_assignment.Cache.DomainCache.{get_analysis, read_value}
use perion_assignment.RateLimit.{
  new_token_bucket, min_int64, tokens_to_add, refill, take_token, allow, new_two_tier,
  get_or_create_ip_bucket,
}
use perion_assignment.RateLimit.Interleaved.{Move, asks, settles, settle_one, pick, move}
use perion_assignment.RateLimit.Interleaved.PerIp.{times_in}
use perion_assignment.Analysis.Shared as Shared
use perion_assignment.Analysis.Shared.{
  Input, call, fetches, goes, leaves_refused, on_looked, on_content, advance,
}
use perion_assignment.Analysis.Shared.Answers.{AllAnswers}
use perion_assignment.Logger.{get_log_event, with_log_event, new_log_event, new_request_log_event}
use perion_assignment.Models.{BatchAnalysisRequest}
use perion_assignment.Models.Errors.{GoError, error_text}
use perion_assignment.Text.{contains, has_prefix, split, trim_space, drop_while, is_space}
use perion_assignment.Http.{
  Body, write_json_response, write_error_response, on_analysis, analyze_single_domain,
  get_status_code_for_error,
}
use perion_assignment.Http.ClientIp.{get_client_ip, split_host_port, index_of, last_index_of, drop}
use perion_assignment.Http.Writer.{set_header, send_header, write_header, write, respond}
use perion_assignment.Http.Middleware.{
  Incoming, logged_body, log_completion, logging, cors_headers, cors, recover, recovery, on_limit,
  rate_limiting, chain,
}
use perion_assignment.Http.Router.{analyze, served, handler_of}
use perion_assignment.Program.{new_limiter}
use perion_assignment.Program.Limits.{per_ip}
use perion_assignment.Program.Requests.{Site, rests, limits, enters, works}
use perion_assignment.Program.Requests.Bound.{opened, Moves, requests_bound}

-- What the runs unfold.
requests : Unit {0}
unfolding scaled_seconds int64_of product seconds round round_up round_down nearest text_eq get put
    new_token_bucket min_int64 tokens_to_add refill take_token allow new_two_tier
    get_or_create_ip_bucket settle_one pick move scan atoi in_seconds get_env get_int_env
    get_duration_env load new_limiter new_memory_cache memory_get get_analysis read_value on_looked
    on_content advance times_in get_client_ip split_host_port index_of last_index_of drop contains
    has_prefix split trim_space drop_while is_space get_log_event with_log_event new_log_event
    new_request_log_event set_header send_header write_header write respond logged_body
    log_completion logging cors_headers cors recover recovery on_limit rate_limiting chain served
    handler_of analyze_single_domain on_analysis write_error_response write_json_response
    get_status_code_for_error error_text
requests = tt

abbrev nothing_set : Text → Text
nothing_set key = []

abbrev ann : Text
ann = codes "10.0.0.1"

abbrev domain : Text
domain = b'x' ∷ codes ".org"

abbrev no_entries : Text → Result (List AdsTxtEntry)
no_entries content = ok []

abbrev in_order : Dict ℕ → List (Text × ℕ)
in_order m = m

abbrev no_json : Text → Result DomainAnalysis
no_json content = err domain_not_found

abbrev lost : Text → Result Text
lost asked = err domain_not_found

abbrev Served : Text → Text → Type 0
Served asked content = ⊥

gives : (asked content : Text) → lost asked ≡ ok content → Served asked content
gives asked content h = absurd (cc h)

abbrev at : ℕ → Input
at now = record { clock = record { asked = now; built = now; stored = now }; fetch = lost }

abbrev no_decode : Text → Result BatchAnalysisRequest
no_decode body = err domain_not_found

abbrev encode : Body → Option GoError
encode body = none

abbrev got : Incoming
got = record {
  method = codes "GET";
  path = codes "/api/analyze/x.org";
  query = [];
  user_agent = codes "curl";
  forwarded_for = [];
  real_ip = ann;
  remote_addr = [];
  body = [];
  process_id = codes "p";
  spare_id = codes "q";
  start = 1;
  now = 2;
  times = record { global = 1; created = 2; per_ip = 3 };
  finish = 2_000_001;
}

abbrev start : Site MemoryCache
start =
    opened no_entries in_order Served no_json (pos 100) lost (load nothing_set) 0 no_decode encode

abbrev moves : List Move
moves = asks ann 1 ∷ settles 0 2 3 ∷ []

admitted : (move (settles 0 2 3) (move (asks ann 1) start.limiter)).admitted ≡ ann ∷ []
unfolding requests
admitted = refl

room :
    times_in ann [] < times_in ann (move (settles 0 2 3) (move (asks ann 1) start.limiter)).admitted
unfolding times_in text_eq
room = rw admitted (omega arith)

day :
    (t : Site MemoryCache) × Moves no_entries in_order Served no_json
      (pos 100)
      lost
      (load nothing_set)
      0
      no_decode
      encode
      moves
      t
unfolding requests
day = (
  _,
  limits (asks ann 1) (
      limits (settles 0 2 3) (
        enters ann (analyze domain) got room (
          works (goes [] [] domain Shared.asks (at 4) gives) tt (
            works (goes [] [] domain fetches (at 5) gives) tt
              (works (leaves_refused [] [] domain _) tt rests))))),
)

requests_bound_example :
    (times_in ann day.0.asked * second
      ≤ 100 * (per_ip (load nothing_set) * second + (second - 0) * per_ip (load nothing_set)))
    × AllAnswers no_entries in_order Served day.0.analyses.answers
unfolding requests
requests_bound_example =
    requests_bound no_entries in_order Served no_json (pos 100) lost (load nothing_set) 0 no_decode
      encode ann moves second day.0 (omega arith) (omega arith)
      (omega arith, ((omega arith, omega arith), omega arith)) day.1
