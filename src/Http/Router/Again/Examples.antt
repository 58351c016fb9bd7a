-- ===== src/Http/Router/Again/Examples.antt =====
-- A domain that is asked for twice through the whole server, and the theorem on it there.
use perion_assignment.Common.{
  ℕ, zero, suc, ◌≡◌, refl, Bool, true, false, Option, none, some, List, [], ◌∷◌, arith, pos,
}
use perion_assignment.Text.{
  Text, codes, text_eq, contains, has_prefix, split, trim_space, drop_while, is_space,
}
use perion_assignment.Dict.{Dict, get, put}
use perion_assignment.Models.{
  DomainAnalysis, AdsTxtEntry, BatchAnalysisRequest, BatchAnalysisResponse,
}
use perion_assignment.Models.Errors.{GoError, domain_not_found, Result, ok, err}
use perion_assignment.Logger.{get_log_event, with_log_event, new_log_event, new_request_log_event}
use perion_assignment.Cache.{MemoryCache, new_memory_cache, memory_get, memory_set, is_expired}
use perion_assignment.Cache.DomainCache.{get_analysis, set_analysis, read_value}
use perion_assignment.Cache.DomainCache.Laws.{over_memory}
use perion_assignment.Analysis.{less, insert_sorted, sort_slice, build_analysis}
use perion_assignment.Analysis.Service.{
  World, Clock, analyze_domain, on_asked, on_fetched, on_parsed, on_cached,
}
use perion_assignment.Analysis.Service.Outcomes.{Fails}
use perion_assignment.Http.{
  Body, analysis_response, write_json_response, write_error_response, on_analysis,
  analyze_single_domain,
}
use perion_assignment.Http.ClientIp.{get_client_ip, split_host_port, index_of, last_index_of, drop}
use perion_assignment.Http.Writer.{set_header, send_header, write_header, write, respond}
use perion_assignment.Http.Middleware.{
  Incoming, Exchange, Ending, RateLimiter, logged_body, log_completion, logging, cors_headers, cors,
  recover, recovery, on_limit, rate_limiting, chain,
}
use perion_assignment.Http.Middleware.Ends.{status_of}
use perion_assignment.Http.Router.{Match, found, analyze, served, handler_of, on_match, serve}
use perion_assignment.Http.Router.Again.{Answers, server, server-again}

-- What the runs unfold.
whole : Unit {0}
unfolding text_eq get put new_memory_cache memory_get is_expired get_analysis set_analysis
    read_value less insert_sorted sort_slice build_analysis analyze_domain on_asked on_fetched
    on_parsed on_cached memory_set write_json_response write_error_response on_analysis
    analyze_single_domain get_client_ip split_host_port index_of last_index_of drop contains
    has_prefix split trim_space drop_while is_space get_log_event with_log_event new_log_event
    new_request_log_event set_header send_header write_header write respond logged_body
    log_completion logging cors_headers cors recover recovery on_limit rate_limiting chain served
    handler_of on_match serve
whole = tt

abbrev parse_one : Text → Result (List AdsTxtEntry)
parse_one content = ok (
    record {
      exchange_domain = codes "a.com";
      publisher_id = codes "7";
      account_type = codes "DIRECT";
      certification_auth = [];
    }
    ∷ [])

abbrev in_order : Dict ℕ → List (Text × ℕ)
in_order m = m

abbrev no_json : Text → Result DomainAnalysis
no_json content = err domain_not_found

abbrev no_batches : List Text → World MemoryCache → World MemoryCache × Result BatchAnalysisResponse
no_batches domains w = (w, err domain_not_found)

abbrev found_file : Text → Result Text
found_file domain = ok (codes "a.com, 7, DIRECT")

abbrev lost : Text → Result Text
lost domain = err domain_not_found

abbrev world : World MemoryCache
world = record { cache = new_memory_cache; heap = []; log = [] }

abbrev first : Clock
first = record { asked = 1; built = 2; stored = 3 }

abbrev second : Clock
second = record { asked = 50; built = 51; stored = 52 }

-- A limiter that admits as many requests as its state says.
abbrev take_one : ℕ → ℕ × Bool
take_one zero = (zero, false)
take_one (suc n) = (n, true)

abbrev countdown : RateLimiter ℕ
countdown = record { allow_request = λ t ip n. take_one n }

abbrev mux : Text → Text → Match (ℕ × World MemoryCache)
mux method path = found (analyze (b'x' ∷ codes ".org"))

abbrev no_decode : Text → Result BatchAnalysisRequest
no_decode body = err domain_not_found

abbrev encode : Body → Option GoError
encode body = none

abbrev got : (process_id : Text) → Incoming
got process_id = record {
  method = codes "GET";
  path = codes "/api/analyze/x.org";
  query = [];
  user_agent = codes "curl";
  forwarded_for = [];
  real_ip = [];
  remote_addr = codes "10.0.0.3:80";
  body = [];
  process_id = process_id;
  spare_id = codes "q";
  start = 1;
  now = 2;
  times = record { global = 3; created = 4; per_ip = 5 };
  finish = 2_000_001;
}

misses :
    Fails
      (get_analysis (over_memory no_json (pos 100)) 1 (b'x' ∷ codes ".org") world.cache world.heap)
unfolding whole
misses = (_, refl)

abbrev serves :
    (Text → Result Text)
    → Clock
    → Incoming
    → ℕ × World MemoryCache
    → Exchange (ℕ × World MemoryCache) × Ending
serves fetch clock r w =
    server parse_one in_order no_json (pos 100) no_batches no_decode encode (λ body. refl) mux
      countdown fetch clock r w

answers : status_of (serves found_file first (got (codes "p")) (2, world)).0 ≡ some 200
unfolding whole
answers = refl

admits : (take_one (serves found_file first (got (codes "p")) (2, world)).0.world.0).1 ≡ true
unfolding whole
admits = refl

server-again_example :
    (let one = (serves found_file first (got (codes "p")) (2, world)).0 in
      let two = (serves lost second (got (codes "p2")) one.world).0 in
      (d : DomainAnalysis) × (d.cached ≡ false)
      × Answers one.writer 200 (analysis_response d)
      × Answers two.writer 200 (analysis_response (record d { cached = true })))
server-again_example =
    server-again parse_one in_order no_json (pos 100) no_batches no_decode encode (λ body. refl) mux
      countdown found_file lost first second (got (codes "p")) (got (codes "p2")) b'x'
      (codes ".org") 2 world refl refl refl refl refl misses answers (omega arith) admits
