-- ===== src/Lib.antt =====
-- A service that fetches the ads.txt files of domains, counts the advertisers in them and answers
-- over HTTP, with a cache and a rate limiter.
--
-- The parts and their files. A request passes the middlewares (internal/http/middlewares.go and
-- internal/http/router.go: Http.Middleware, Http.Router, with the writer of net/http in
-- Http.Writer and the client's address in Http.ClientIp), among them the rate limiter
-- (internal/ratelimit/limiter.go: RateLimit), and reaches a handler (internal/http/handlers.go:
-- Http), which asks the analysis service (internal/domainAnalysis/analysis.go: Analysis). The
-- service asks the domain cache (internal/cache/domainCache: Cache.DomainCache) over a cache in
-- memory (internal/cache/memory.go: Cache) or in Redis (internal/cache/redis.go: Cache.Redis), and
-- on a miss fetches the file (internal/fetcher/http.go: Fetcher, with the limit on redirections in
-- Fetcher.Redirects), parses it (internal/parser/adstxt.go: Parser), builds an analysis and caches
-- it; Http.Composed puts the handlers over this service and over the workers of a batch, and
-- Http.Router.Again is about the whole server. All of them write to a log (internal/logger:
-- Logger). The environment gives the settings (internal/config/config.go: Config), from which
-- main.go makes the parts (Program), serves and ends (Program.Lifecycle). The records and errors
-- that they share are internal/models: Models. Text is the part of the packages strings and
-- unicode/utf8 that is used, Dict are Go's maps, and Float is the arithmetic in float64 of the
-- limiter.
--
-- The correspondence. A function of the source has the same name in snake_case, its receiver's
-- state is an argument and a result, and a pair (T, error) is a Result. Texts are lists of code
-- points. A time is a number of nanoseconds and an argument wherever the source reads the clock; a
-- function that reads it several times has several. A lock that is held for a whole method makes
-- the method one step. A pointer to an analysis is an address in a heap (Models.Heap), because the
-- cache in memory hands out the pointer that it was given. The order in which the runtime visits a
-- map is a function from the map to a list of its entries. The algorithm of sort.Slice is not
-- modelled: it stands as a sorting by insertion (Analysis.Sort).
--
-- Parameters. The case tables of unicode above ASCII, json.Marshal and json.Unmarshal, the JSON
-- encoder, url.Parse and net/http as the fetcher calls them, the fetcher and the parser as the
-- service sees them, the analysis service as the handlers see it, the handler and the limiter as
-- the middlewares see them, gorilla/mux as a function from a method and a path to a route, the
-- client of go-redis, the loop of net/http over redirections, and the package pgx of the log's
-- database. What a theorem needs of them stands among its hypotheses: a router keeps to the
-- methods of its routes, Redis keeps a text until its time to live ends, json.Unmarshal reads what
-- json.Marshal wrote, and the database stores no row that breaks the constraints of its table.
--
-- Bounds and fuel. Only the digits of a number in a message are computed on fuel: a number has no
-- more digits than its successor. A product in float64 is a fraction, rounded to 53 bits at each
-- operation; the exponent is not bounded, since no time and no rate comes near its limits. Rates
-- and capacities are natural numbers: a negative one, like zero, gives no token. A capacity is
-- taken to be at most two million where the roundings matter: up to there a product never exceeds
-- the exact number of tokens. A number from the environment is of 64 bits, and a duration wraps
-- around; the sum of the tokens of a bucket and those that are added is not wrapped, which rates
-- near 2 ^ 62 alone would reach.
--
-- Orders of steps. The goroutines of a batch with their semaphore, wait group and channel
-- (Analysis.Batch), the calls of AnalyzeDomain that share the cache and its analyses
-- (Analysis.Shared), the calls of the rate limiter between its locks (RateLimit.Interleaved), the
-- goroutines of the logger (Logger.Pending) and those of main.go (Program.Lifecycle) are relations
-- of steps, which may follow one another in any order; Program.Requests puts the limiter and the
-- analyses of all requests together, the domains that a request asks for being those that the
-- middlewares and its handler ask the service for. What net/http documents of ListenAndServe and
-- Shutdown is a part of Program.Lifecycle.
--
-- Not modelled: what the program prints; the metadata of the handlers' and the service's log
-- calls; the responses of requests that run at the same time, which are handled one after the
-- other in Http.Router; a sweep between the lookup of an address's bucket and the call on it; the
-- URL parameters in the metadata of the middlewares' log calls.
pub mod Common
pub mod Float
pub mod Text
pub mod Dict
pub mod Models
pub mod Logger
pub mod Config
pub mod Parser
pub mod RateLimit
pub mod Cache
pub mod Analysis
pub mod Fetcher
pub mod Http
pub mod Program
