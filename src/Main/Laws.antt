-- ===== src/Main/Laws.antt =====
-- When the program comes up, and with what.
use event_driven_arch.Common.{
  String, ◌≡◌, ◌≢◌, ◌⊎◌, inl, inr, refl, List, Option, none, some, Outcome, ok, err,
}
use event_driven_arch.Common.Int.{ℤ}
use event_driven_arch.Config.{Config, load}
use event_driven_arch.Config.Laws.{LoadSpec, load-LoadSpec}
use event_driven_arch.Database.{
  PoolDriver, Opened, in_use, closed, not_opened, connect, Migrator, migrate,
}
use event_driven_arch.Database.Laws.{
  HasAnswered, HasMigrated, connect-HasAnswered, migrate-HasMigrated,
}
use event_driven_arch.Domain.Errors.{Err, Error}
use event_driven_arch.Domain.Entities.{Duration, Channel}
use event_driven_arch.Domain.Validation.{IsChannel}
use event_driven_arch.Main.{
  Boot, fatal, panicked, serving, app_of, staffed, migrated, connected, configured, boot,
}
use event_driven_arch.Pool.{PoolWorker, new_pool}
use event_driven_arch.Queue.{new}
use event_driven_arch.RateLimiter.{wait}
use event_driven_arch.RateLimiter.Laws.{wait-new_iff}

module _ {C P M L : Type 0} (driver : PoolDriver C P) (migrator : Migrator M)
    (new_limiter : ℤ → ℤ → L) (getenv : String → String) (atoi : String → Outcome String ℤ)
    (parse_duration : String → Outcome String Duration) where
  -- What the steps before the queue gave: the configuration of the environment, a pool made from it
  -- that answered a ping, and a database on which the migrations ran or had run.
  abbrev pub IsPrepared : Config → P → Type 0
  IsPrepared cfg pool =
      (load getenv atoi parse_duration ≡ ok cfg)
      × LoadSpec getenv (ok cfg)
      × HasAnswered driver cfg pool
      × HasMigrated migrator cfg.database_url

  abbrev pub BootSpec : Boot P L → Type 0
  BootSpec (serving app) =
      IsPrepared app.cfg app.pool
      × (app.queue ≡ new)
      × (new_pool app.cfg ≡ some app.workers)
      × ((limiter_wait : L → Err) (channel : Channel)
          → IsChannel channel
          → wait limiter_wait app.limiters channel
            ≡ some (limiter_wait (new_limiter app.cfg.rate_limit app.cfg.rate_limit)))
  BootSpec panicked = (cfg : Config) × (pool : P) × IsPrepared cfg pool × (new_pool cfg ≡ none)
  BootSpec (fatal message) =
      (getenv "DATABASE_URL" ≡ "")
      ⊎ ((cfg : Config) × (load getenv atoi parse_duration ≡ ok cfg)
          × (((pool : P) → connect driver cfg ≢ in_use pool)
              ⊎ ((e : Error) × (migrate migrator cfg.database_url ≡ err e))))

  staffed-BootSpec :
      (cfg : Config) (pool : P) (workers : Option (List PoolWorker))
      → IsPrepared cfg pool
      → new_pool cfg ≡ workers
      → BootSpec (staffed driver migrator new_limiter cfg pool workers)
  unfolding staffed app_of
  staffed-BootSpec cfg pool none prepared made = (cfg, pool, prepared, made)
  staffed-BootSpec cfg pool (some workers) prepared made = (
    prepared,
    refl,
    made,
    λ limiter_wait channel. (wait-new_iff new_limiter limiter_wait cfg.rate_limit channel).1,
  )

  migrated-BootSpec :
      (cfg : Config) (pool : P) (r : Err)
      → load getenv atoi parse_duration ≡ ok cfg
      → LoadSpec getenv (ok cfg)
      → connect driver cfg ≡ in_use pool
      → migrate migrator cfg.database_url ≡ r
      → BootSpec (migrated driver migrator new_limiter cfg pool r)
  unfolding migrated
  migrated-BootSpec cfg pool (err e) is good open_ run = inr (cfg, is, inr (e, run))
  migrated-BootSpec cfg pool (ok _) is good open_ run =
      staffed-BootSpec cfg pool (new_pool cfg)
        (
          is,
          good,
          connect-HasAnswered driver cfg pool open_,
          migrate-HasMigrated migrator cfg.database_url run,
        )
        refl

  connected-BootSpec :
      (cfg : Config) (o : Opened P)
      → load getenv atoi parse_duration ≡ ok cfg
      → LoadSpec getenv (ok cfg)
      → connect driver cfg ≡ o
      → BootSpec (connected driver migrator new_limiter cfg o)
  unfolding connected
  connected-BootSpec cfg (closed pool e) is good open_ = inr (cfg, is, inl λ p h. cc)
  connected-BootSpec cfg (not_opened e) is good open_ = inr (cfg, is, inl λ p h. cc)
  connected-BootSpec cfg (in_use pool) is good open_ =
      migrated-BootSpec cfg pool _ is good open_ refl

  configured-BootSpec :
      (r : Outcome String Config)
      → load getenv atoi parse_duration ≡ r
      → LoadSpec getenv r
      → BootSpec (configured driver migrator new_limiter r)
  unfolding configured
  configured-BootSpec (err e) is good = inl good
  configured-BootSpec (ok cfg) is good = connected-BootSpec cfg _ is good refl

  -- Whatever the environment and the libraries do: `main` comes to the start of its goroutines only
  -- with the configuration of the environment, which satisfies what `Load` promises, a pool that was
  -- made from its URL and limits and that answered a ping, a database of that URL on which `Up`
  -- reported success or no change, an empty queue, the workers of `NewPool`, and a limiter at the
  -- configured rate for every channel that a request may name. Before that, it panics only if
  -- `NewPool` does, and ends with a message only if no database URL is given, `Connect` returns no
  -- pool, or `Migrate` fails.
  pub boot-BootSpec : BootSpec (boot driver migrator new_limiter getenv atoi parse_duration)
  unfolding boot
  boot-BootSpec =
      configured-BootSpec (load getenv atoi parse_duration) refl
        (load-LoadSpec getenv atoi parse_duration)
