-- ===== src/Database.antt =====
-- internal/db/postgres.go, over pgxpool and golang-migrate: a call of theirs is a parameter, and an
-- error of theirs is its text.
pub mod Laws
use Prim.Native.String.{len, slice, ◌++◌}
use text.Mathlib.Text.{starts_with}
use event_driven_arch.Common.{
  String, List, [], ◌∷◌, Bool, Outcome, ok, err, Failure, if◌then◌else◌, not,
}
use event_driven_arch.Common.Int.{ℤ}
use event_driven_arch.Config.{Config}
use event_driven_arch.Domain.Errors.{Error, Err, Result, wrapped, foreign}

pub record PoolDriver (C P : Type 0) : Type 0 where
  pub parse_config : String → Outcome String C
  pub set_conns : ℤ → ℤ → C → C
  pub new_with_config : C → Outcome String P
  pub ping : P → Failure String

-- A pool that was opened, or closed again.
pub data Opened (P : Type 0) : Type 0 where
  in_use : P → Opened P
  closed : P → Error → Opened P
  not_opened : Error → Opened P

module _ {C P : Type 0} (driver : PoolDriver C P) where
  pinged : P → Failure String → Opened P
  pinged pool (err e) = closed pool (wrapped "ping database" (foreign e))
  pinged pool (ok _) = in_use pool

  pooled : Outcome String P → Opened P
  unfolding pinged
  pooled (err e) = not_opened (wrapped "create connection pool" (foreign e))
  pooled (ok pool) = pinged pool (driver.ping pool)

  configured : Config → Outcome String C → Opened P
  unfolding pooled
  configured cfg (err e) = not_opened (wrapped "parse database URL" (foreign e))
  configured cfg (ok pool_cfg) =
      pooled (driver.new_with_config (driver.set_conns cfg.db_max_conns cfg.db_min_conns pool_cfg))

  -- `Connect`
  unfoldable pub connect : Config → Opened P
  unfolding configured
  connect cfg = configured cfg (driver.parse_config cfg.database_url)

abbrev pub postgresql_scheme : String
postgresql_scheme = "postgresql://"

abbrev pub postgres_scheme : String
postgres_scheme = "postgres://"

-- The switch of `Migrate`, and the URL that it makes of what is left.
pub migration_url : String → String
migration_url url =
    "pgx5://"
    ++ (if starts_with url postgresql_scheme
        then slice url (len postgresql_scheme) (len url)
        else if starts_with url postgres_scheme
        then slice url (len postgres_scheme) (len url)
        else url)

-- `migrate.ErrNoChange` is `no_change`.
pub record Migrator (M : Type 0) : Type 0 where
  pub new : String → String → Outcome String M
  pub up : M → Failure String
  pub no_change : String → Bool

module _ {M : Type 0} (migrator : Migrator M) where
  upped : Failure String → Err
  upped (ok _) = ok tt
  upped (err e) = if migrator.no_change e then ok tt else err (wrapped "run migrations" (foreign e))

  opened : Outcome String M → Err
  unfolding upped
  opened (err e) = err (wrapped "create migrator" (foreign e))
  opened (ok m) = upped (migrator.up m)

  -- `Migrate`
  unfoldable pub migrate : String → Err
  unfolding opened migration_url
  migrate url = opened (migrator.new "file://migrations" (migration_url url))
