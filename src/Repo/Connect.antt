-- ===== src/Repo/Connect.antt =====
-- services/intake/internal/repo/postgres.go: the migrations and the connection to the database.
-- golang-migrate and pgxpool are parameters over the world with the database.
use job_stream.Base.{Bool, Option, none, some, [], Text, codes, Result, ok, err, if◌then◌else◌}
use job_stream.Errors.{Error, wrapped}

-- `source` is iofs.New of the embedded files, `open_source` migrate.NewWithSourceInstance, `up` its
-- Up, and `is_no_change` the test for migrate.ErrNoChange.
pub record MigratePackage (W : Type 0) : Type 1 where
  pub Source : Type 0
  pub Migrate : Type 0
  pub source : Result Error Source
  pub open_source : Source → Text → W → Result Error Migrate × W
  pub up : Migrate → W → Option Error × W
  pub close : Migrate → W → W
  pub is_no_change : Error → Bool

module _ {W : Type 0} (migrate : MigratePackage W) where
  open migrate use {Source, Migrate, source, open_source, up, close, is_no_change}

  after_up : Migrate → Option Error × W → Option Error × W
  after_up m (none, w) = (none, close m w)
  after_up m (some e, w) =
      if is_no_change e
      then (none, close m w)
      else (some (wrapped (codes "migrate up: ") e []), close m w)

  after_open : Result Error Migrate × W → Option Error × W
  unfolding after_up
  after_open (err e, w) = (some (wrapped (codes "migrate.New: ") e []), w)
  after_open (ok m, w) = after_up m (up m w)

  after_source : Text → Result Error Source → W → Option Error × W
  unfolding after_open
  after_source dsn (err e) w = (some (wrapped (codes "iofs source: ") e []), w)
  after_source dsn (ok src) w = after_open (open_source src dsn w)

  -- `RunMigrations`
  unfoldable pub run_migrations : Text → W → Option Error × W
  unfolding after_source
  run_migrations dsn w = after_source dsn source w

-- `new` is pgxpool.New, over the type of the pools.
module _ {W P : Type 0} (new : Text → W → Result Error P × W) (ping : P → W → Option Error × W)
    (close_pool : P → W → W) where
  after_ping : P → Option Error × W → Result Error P × W
  after_ping pool (some e, w) = (err (wrapped (codes "ping postgres: ") e []), close_pool pool w)
  after_ping pool (none, w) = (ok pool, w)

  after_new : Result Error P × W → Result Error P × W
  unfolding after_ping
  after_new (err e, w) = (err (wrapped (codes "pgxpool.New: ") e []), w)
  after_new (ok pool, w) = after_ping pool (ping pool w)

  -- `NewPostgres`: the repository's pool.
  unfoldable pub new_postgres : Text → W → Result Error P × W
  unfolding after_new
  new_postgres dsn w = after_new (new dsn w)

  -- `Close`
  unfoldable pub close_postgres : P → W → W
  close_postgres pool w = close_pool pool w
