-- ===== src/Main.antt =====
-- cmd/server/main.go: what `main` builds before it serves. Opening the database, running the
-- migrations, making a limiter and reading the environment are parameters, as in the modules that
-- these calls belong to.
pub mod Laws
use Prim.Native.String.{◌++◌}
use event_driven_arch.Common.{String, List, Option, none, some, Outcome, ok, err}
use event_driven_arch.Common.Int.{ℤ}
use event_driven_arch.Common.Dict.{Dict}
use event_driven_arch.Config.{Config, load}
use event_driven_arch.Database.{
  PoolDriver, Opened, in_use, closed, not_opened, connect, Migrator, migrate,
}
use event_driven_arch.Domain.Errors.{Err}
use event_driven_arch.Domain.Entities.{Duration}
use event_driven_arch.Pool.{PoolWorker, new_pool}
use event_driven_arch.Queue
use event_driven_arch.Queue.{PriorityQueue}
use event_driven_arch.RateLimiter

-- What the goroutines that `main` starts are given.
pub record App (P L : Type 0) : Type 0 where
  pub cfg : Config
  pub pool : P
  pub queue : PriorityQueue
  pub limiters : Dict L
  pub provider_url : String
  pub workers : List PoolWorker
  pub retry_interval : Duration
  pub scheduler_interval : Duration
  pub addr : String

-- `logger.Fatal` ends the process with this message.
pub data Boot (P L : Type 0) : Type 0 where
  fatal : String → Boot P L
  panicked : Boot P L
  serving : App P L → Boot P L

module _ {C P M L : Type 0} (driver : PoolDriver C P) (migrator : Migrator M)
    (new_limiter : ℤ → ℤ → L) where
  app_of : Config → P → List PoolWorker → App P L
  app_of cfg pool workers = record {
    cfg = cfg;
    pool = pool;
    queue = Queue.new;
    limiters = RateLimiter.new new_limiter cfg.rate_limit;
    provider_url = cfg.provider_base_url;
    workers = workers;
    retry_interval = cfg.retry_interval;
    scheduler_interval = cfg.scheduler_interval;
    addr = ":" ++ cfg.http_port;
  }

  staffed : Config → P → Option (List PoolWorker) → Boot P L
  unfolding app_of
  staffed cfg pool none = panicked
  staffed cfg pool (some workers) = serving (app_of cfg pool workers)

  migrated : Config → P → Err → Boot P L
  unfolding staffed
  migrated cfg pool (err e) = fatal "failed to run migrations"
  migrated cfg pool (ok _) = staffed cfg pool (new_pool cfg)

  connected : Config → Opened P → Boot P L
  unfolding migrated
  connected cfg (closed pool e) = fatal "failed to connect to database"
  connected cfg (not_opened e) = fatal "failed to connect to database"
  connected cfg (in_use pool) = migrated cfg pool (migrate migrator cfg.database_url)

  configured : Outcome String Config → Boot P L
  unfolding connected
  configured (err e) = fatal "failed to load config"
  configured (ok cfg) = connected cfg (connect driver cfg)

  -- `main`, up to the start of the goroutines; what these do afterwards, the panic of a ticker whose
  -- interval is not positive included, is not part of it.
  unfoldable pub boot :
      (String → String)
      → (String → Outcome String ℤ)
      → (String → Outcome String Duration)
      → Boot P L
  unfolding configured
  boot getenv atoi parse_duration = configured (load getenv atoi parse_duration)
