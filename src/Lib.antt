-- ===== src/Lib.antt =====
-- A notification service: a client posts notifications over HTTP, the service stores them in
-- PostgreSQL and puts them on a queue of three priorities in memory, workers take them off, pass them
-- to a provider under a rate limit and store the outcome, and two background workers put notifications
-- that are due, for a retry or by their schedule, on the queue.
--
-- The files and the code that they model, by its path in the repository:
--   Domain             internal/domain: the types, `Validate`, the sentinel errors and what wraps them.
--                      A call is a function from a state to a result and a state (`Action`).
--   Queue              internal/queue. A channel is a list with a capacity. A `select` is one step;
--                      `Dequeue` is its two selects, with what the other goroutines did in between.
--                      Queue/Trace runs any interleaving of selects of any number of goroutines.
--   Repository         internal/repository/notification_repo.go as a record of methods over a state.
--   Repository/Contract  what the callers rely on: the notifications as a function of their ids, and
--                      the effect of each method on that function.
--   Repository/Contract/Keys, Repository/Contract/Reliable  laws beyond the contract: what `Create` does
--                      with a key that is in use, and states in which the statements work.
--   Repository/Mock    internal/repository/mock_notification_repo.go.
--   Repository/Pg      internal/repository/pg_notification_repo.go: the tables, and each statement as
--                      a change of them. Every statement has a fate that the state lists: it works,
--                      is refused, or takes effect while the report of it is lost.
--   Service            internal/service/notification_service.go, over any repository.
--   Worker             internal/worker/worker.go: `process` and `handleFailure`, over any repository.
--                      The answers of the limiter and the provider and the clock are arguments.
--   Worker/Delivery    one call of `process` where the statements, the limiter and the provider work.
--   Worker/Loop        the loop of `Run`, with what the other goroutines do while `Dequeue` runs.
--   Poll               the ticks of internal/worker/retry_worker.go and scheduler_worker.go, and in
--                      Poll/Loop the loops of their tickers.
--   Runtime            the calls of the service and the workers as goroutines. A call is the requests
--                      that it makes of the database, the queue, the limiter, the provider and the
--                      clock (`Code`, Runtime/Calls); Runtime/Machine lets any number of calls make
--                      their requests in any order; Runtime/Alone relates both views of a call;
--                      Runtime/EndToEnd puts a call of `Create` and one of `process` together;
--                      Runtime/Bounds counts the requests of a call.
--   Provider           internal/provider, over an HTTP client and a JSON coder.
--   RateLimiter        internal/ratelimiter/limiter.go, over golang.org/x/time/rate.
--   Metrics            internal/metrics/metrics.go, over the Prometheus client.
--   Http               the handlers of internal/api/handler, from the decoded request to the response;
--                      in Http/Middleware, internal/api/middleware; in Http/Router, the routes of
--                      internal/api/router.go and what is behind each of them.
--   Config, Database   internal/config and internal/db.
--   Pool               internal/worker/pool.go; in Pool/Run, the goroutines that `Start` starts, step by
--                      step, and the counter that `Wait` waits for; in Pool/Hooks, `NewWorker`.
--   Main               cmd/server/main.go up to the point at which its goroutines start.
--   Common, Tests      shared helpers; concrete runs.
--
-- The service, the workers and the handlers take the repository as a parameter, and their theorems
-- take the contract as a hypothesis.
--
-- No function needs fuel: the loops run over lists, also those of `Run`, which are given what each turn
-- finds. Sizes and counts are natural numbers, without the bound of the code's `int`; the offset of a
-- page and the number of workers are kept in 64 bits, and the sizes of the connection pool in 32. The
-- bounds 1000, 5000 and 2000 of the queue, 1000 of a batch and 500 of a search are the code's. An instant
-- is a number of nanoseconds; the columns keep its whole microseconds (`to_micros`), so the contract
-- states times that are stored to the microsecond.
--
-- The limiter panics for a channel that its map has no entry for: it answers `none`, and `process`
-- then ends in a panic. The order that the server gives rows of one time may differ in each query.
--
-- What the server does with a statement is modelled from its text and the schema in migrations/. In
-- Runtime a method of the repository is one request. A step that stores notifications is taken only
-- with ids that no stored one has, as `uuid.New` gives them; the calls that only read are not among the
-- calls that interleave there. The workers of Pool/Run make the requests of Runtime/Calls; what other
-- goroutines do between two of their steps is any function.
--
-- Not modelled: how chi matches a path, and its own middleware; the start of the goroutines of the two
-- tickers and of the server, and the shutdown; the JSON of requests and responses; and logging.
pub mod Common
pub mod Domain
pub mod Queue
pub mod Repository
pub mod Service
pub mod Worker
pub mod Poll
pub mod Runtime
pub mod Provider
pub mod RateLimiter
pub mod Metrics
pub mod Http
pub mod Config
pub mod Database
pub mod Pool
pub mod Main
pub mod Tests
