-- ===== src/Http/Router/Examples.antt =====
-- Runs of internal/http/middlewares.go and internal/http/router.go, and the theorems on them there.
use perion_assignment.Common.{ℕ, ◌≡◌, refl, Bool, true, false, Option, none, some, [], zero, suc}
use perion_assignment.Text.{
  Text, codes, text_eq, contains, has_prefix, split, trim_space, drop_while, is_space, text_eq_iff,
}
use perion_assignment.Dict.{put}
use perion_assignment.Models.{BatchAnalysisRequest}
use perion_assignment.Models.Errors.{domain_not_found, plain, error_text, Result, ok, err}
use perion_assignment.Logger.{get_log_event, with_log_event, new_log_event, new_request_log_event}
use perion_assignment.Http.{
  AnalysisService, Body, get_status_code_for_error, analyze_single_domain, on_analysis,
  write_error_response, write_json_response, health_check,
}
use perion_assignment.Http.ClientIp.{get_client_ip, split_host_port, index_of, last_index_of, drop}
use perion_assignment.Http.ClientIp.Remote.{join_host_port, get_client_ip-join_host_port}
use perion_assignment.Http.Writer.{literal, set_header, send_header, write_header, write, respond}
use perion_assignment.Http.Middleware.{
  Incoming, returned, panicked, Handler, RateLimiter, logged_body, log_completion, logging,
  cors_headers, cors, answer_with, recover, recovery, on_limit, rate_limiting, chain,
}
use perion_assignment.Http.Middleware.Ends.{status_of, last_completed}
use perion_assignment.Http.Middleware.Outcomes.{Outcome, chain-Outcome}
use perion_assignment.Http.Router.{
  Route, health, analyze, batch_analysis, root, method_of, Match, found, unmatched, served,
  handler_of, on_match, serve, fresh,
}
use perion_assignment.Http.Router.Statuses.{IsLogged, serve-IsLogged, serve_preflight}

-- What the runs unfold.
server : Unit {0}
unfolding get_client_ip split_host_port index_of last_index_of drop join_host_port contains
    has_prefix split trim_space drop_while is_space text_eq put get_log_event with_log_event
    new_log_event new_request_log_event set_header send_header write_header write respond
    logged_body log_completion logging cors_headers cors answer_with recover recovery on_limit
    rate_limiting chain last_completed served handler_of on_match serve get_status_code_for_error
    error_text analyze_single_domain on_analysis write_error_response write_json_response
    health_check method_of
server = tt

addresses :
    (get_client_ip (codes " 10.0.0.1 , 10.0.0.9") (codes "10.0.0.2") (codes "10.0.0.3:80")
      ≡ codes "10.0.0.1")
    × (get_client_ip [] (codes "10.0.0.2") (codes "10.0.0.3:80") ≡ codes "10.0.0.2")
    × (get_client_ip [] [] (codes "10.0.0.3:80") ≡ codes "10.0.0.3")
    × (get_client_ip [] [] (codes "[2001:db8::1]:80") ≡ codes "2001:db8::1")
    × (get_client_ip [] [] (codes "2001:db8::1:80") ≡ codes "2001:db8::1:80")
    × (get_client_ip [] [] (codes "@") ≡ codes "@")
unfolding server
addresses = (refl, refl, refl, refl, refl, refl)

get_client_ip-join_host_port_example :
    get_client_ip [] [] (join_host_port (codes "2001:db8::1") (codes "80")) ≡ codes "2001:db8::1"
get_client_ip-join_host_port_example =
    get_client_ip-join_host_port (codes "2001:db8::1") (codes "80") refl refl (refl, refl, refl)

-- A request of a method for a path.
abbrev asks : (method path : Text) → Incoming
asks method path = record {
  method = method;
  path = path;
  query = [];
  user_agent = codes "curl";
  forwarded_for = [];
  real_ip = [];
  remote_addr = codes "10.0.0.3:80";
  body = [];
  process_id = codes "p";
  spare_id = codes "q";
  start = 1;
  now = 2;
  times = record { global = 3; created = 4; per_ip = 5 };
  finish = 2_000_001;
}

-- A limiter that admits as many requests as its state says.
abbrev take_one : ℕ → ℕ × Bool
take_one zero = (zero, false)
take_one (suc n) = (n, true)

abbrev countdown : RateLimiter ℕ
countdown = record { allow_request = λ t ip n. take_one n }

-- A handler that panics behind its status.
abbrev late_panic : Handler ℕ
late_panic r ctx x = (
  record x { writer = write (literal (codes "{")) (write_header 200 x.writer) },
  panicked (codes "boom"),
)

abbrev panic : Handler ℕ
panic r ctx x = (x, panicked (codes "boom"))

abbrev got : Incoming
got = asks (codes "GET") (codes "/health")

panics :
    (status_of (chain countdown panic got none (fresh (1, 0))).0 ≡ some 500)
    × (status_of (chain countdown late_panic got none (fresh (1, 0))).0 ≡ some 200)
    × (last_completed (chain countdown late_panic got none (fresh (1, 0))).0.log ≡ some 500)
    × (status_of (chain countdown panic got none (fresh (0, 0))).0 ≡ some 429)
unfolding server
panics = (refl, refl, refl, refl)

chain-Outcome_example :
    Outcome countdown late_panic got none
      (fresh (1, 0))
      (chain countdown late_panic got none (fresh (1, 0)))
chain-Outcome_example = chain-Outcome countdown late_panic got none (fresh (1, 0))

-- A service that counts its calls and finds nothing, and a router that knows two paths.
abbrev nowhere : AnalysisService ℕ
nowhere = record {
  analyze_domain = λ domain n. (suc n, err domain_not_found);
  analyze_domains = λ domains n. (suc n, err domain_not_found);
}

abbrev no_decode : Text → Result BatchAnalysisRequest
no_decode s = err (plain (codes "EOF"))

abbrev encodes : Body → Option perion_assignment.Models.Errors.GoError
encodes body = none

abbrev not_found : Handler (ℕ × ℕ)
not_found r ctx x = (record x { writer = write_header 404 x.writer }, returned)

abbrev mux_at : Text → Bool → Bool → Match (ℕ × ℕ)
mux_at path true true = found health
mux_at path true false = found (analyze (codes "x.org"))
mux_at path false is_health = unmatched not_found

abbrev mux : Text → Text → Match (ℕ × ℕ)
mux method path = mux_at path (text_eq method (codes "GET")) (text_eq path (codes "/health"))

get_route :
    (method path : Text) (is_get is_health : Bool) (route : Route)
    → text_eq method (codes "GET") ≡ is_get
    → mux_at path is_get is_health ≡ found route
    → method ≡ method_of route
unfolding method_of
get_route method path true true health g h = (text_eq_iff method (codes "GET")).0 g
get_route method path true true (analyze domain) g h = (text_eq_iff method (codes "GET")).0 g
get_route method path true true root g h = (text_eq_iff method (codes "GET")).0 g
get_route method path true true batch_analysis g h = absurd (cc h)
get_route method path true false health g h = (text_eq_iff method (codes "GET")).0 g
get_route method path true false (analyze domain) g h = (text_eq_iff method (codes "GET")).0 g
get_route method path true false root g h = (text_eq_iff method (codes "GET")).0 g
get_route method path true false batch_analysis g h = absurd (cc h)
get_route method path false is_health route g h = absurd (cc h)

mux_keeps :
    (method path : Text) (route : Route) → mux method path ≡ found route → method ≡ method_of route
mux_keeps method path route h =
    get_route method path (text_eq method (codes "GET")) (text_eq path (codes "/health")) route refl
      h

abbrev got_analysis : Incoming
got_analysis = asks (codes "GET") (codes "/api/analyze/x.org")

routes :
    (status_of (serve nowhere no_decode encodes mux countdown got none (fresh (1, 0))).0 ≡ some 200)
    × (status_of (serve nowhere no_decode encodes mux countdown got_analysis none (fresh (1, 0))).0
        ≡ some 404)
    × ((serve nowhere no_decode encodes mux countdown got_analysis none (fresh (1, 0))).0.world
        ≡ (0, 1))
    × ((serve nowhere no_decode encodes mux countdown got_analysis none (fresh (0, 0))).0.world
        ≡ (0, 0))
unfolding server
routes = (refl, refl, refl, refl)

serve-IsLogged_example :
    IsLogged (serve nowhere no_decode encodes mux countdown got_analysis none (fresh (1, 0)))
unfolding text_eq
serve-IsLogged_example =
    serve-IsLogged nowhere no_decode encodes countdown got_analysis 1 0 mux
      (analyze (codes "x.org")) refl

abbrev preflight_request : Incoming
preflight_request = asks (codes "OPTIONS") (codes "/health")

serve_preflight_example :
    (own : Handler (ℕ × ℕ)) × (mux (codes "OPTIONS") (codes "/health") ≡ unmatched own)
    × (serve nowhere no_decode encodes mux countdown preflight_request none (fresh (1, 0))
        ≡ own preflight_request none (fresh (1, 0)))
serve_preflight_example =
    serve_preflight nowhere no_decode encodes countdown preflight_request 1 0 mux mux_keeps refl
