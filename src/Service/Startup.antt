-- ===== src/Service/Startup.antt =====
-- services/intake/cmd/intake/main.go: the start of the service and its end. The network, golang-migrate
-- and pgxpool act on the world; the goroutines that serve the listeners, and the wait for a signal
-- between start and end, are left out.
pub mod Order
use job_stream.Base.{
  Option, none, some, List, [], ◌∷◌, ◌++◌, ℤ, pos, Text, codes, decimal_ℤ, Result, ok, err,
}
use job_stream.Errors.{Error, error_text}
use job_stream.Proto.{Time}
use job_stream.Auth.{Claims}
use job_stream.Auth.Jwt
use job_stream.Auth.Jwt.{JwtPackage}
use job_stream.Config.{Config}
use job_stream.RateLimit.{RatePackage, UserRateLimiter, new}
use job_stream.Repo.Connect.{MigratePackage, run_migrations, new_postgres, close_postgres}

-- What main calls of other modules: golang-migrate, pgxpool with its Ping and Close, slog's
-- UnmarshalText, net.Listen, redis.NewClient and Close, grpc.NewClient and Close, and the ends of the
-- two servers.
pub record Host (W P C R : Type 0) : Type 1 where
  pub migrate : MigratePackage W
  pub new_pool : Text → W → Result Error P × W
  pub ping : P → W → Option Error × W
  pub close_pool : P → W → W
  pub unmarshal_text : Text → Option ℤ
  pub listen : Text → W → Option Error × W
  pub new_redis : Text → R
  pub close_redis : R → W → W
  pub new_client : Text → Result Error C
  pub close_client : C → W → W
  pub shutdown_http : W → Option Error × W
  pub graceful_stop : W → W

-- The service that main has put together.
pub record Running (rate : RatePackage) (P C R : Type 0) : Type 0 where
  pub log_level : ℤ
  pub pool : P
  pub redis : R
  pub verify : Time → Text → Result Error Claims
  pub limits : UserRateLimiter rate
  pub connection : C
  pub cors_origin : Text
  pub http_addr : Text

pub data Start (rate : RatePackage) (P C R : Type 0) : Type 0 where
  fatal : Text → Start rate P C R
  running : Running rate P C R → Start rate P C R

-- A line of main's own log.
pub data Line : Type 0 where
  info_line : Text → Line
  error_line : Text → Error → Line

-- The level that the text names, and slog.LevelInfo if it names none.
level_or_info : Option ℤ → ℤ
level_or_info none = pos 0
level_or_info (some level) = level

module _ (rate : RatePackage) (jwt : JwtPackage) {W P C R : Type 0} (host : Host W P C R)
    (cfg : Config rate.Limit) where
  after_client : P → Result Error C → W → Start rate P C R × W
  unfolding level_or_info
  after_client pool (err e) w = (fatal (codes "gateway dial: " ++ error_text e), w)
  after_client pool (ok conn) w = (
    running (record {
      log_level = level_or_info (host.unmarshal_text cfg.log_level);
      pool = pool;
      redis = host.new_redis cfg.redis_addr;
      verify = Jwt.verify jwt cfg.jwt_secret;
      limits = new rate cfg.rate_limit_rps cfg.rate_limit_burst;
      connection = conn;
      cors_origin = cfg.cors_origin;
      http_addr = codes ":" ++ decimal_ℤ cfg.http_port;
    }),
    w,
  )

  after_listen : P → Option Error × W → Start rate P C R × W
  unfolding after_client
  after_listen pool (some e, w) = (fatal (codes "net.Listen: " ++ error_text e), w)
  after_listen pool (none, w) =
      after_client pool (host.new_client (codes "localhost:" ++ decimal_ℤ cfg.grpc_port)) w

  after_postgres : Result Error P × W → Start rate P C R × W
  unfolding after_listen
  after_postgres (err e, w) = (fatal (codes "postgres: " ++ error_text e), w)
  after_postgres (ok pool, w) =
      after_listen pool (host.listen (codes ":" ++ decimal_ℤ cfg.grpc_port) w)

  after_migrations : Option Error × W → Start rate P C R × W
  unfolding after_postgres
  after_migrations (some e, w) = (fatal (codes "migrations: " ++ error_text e), w)
  after_migrations (none, w) =
      after_postgres (new_postgres host.new_pool host.ping host.close_pool cfg.database_url w)

  start : W → Start rate P C R × W
  unfolding after_migrations
  start w = after_migrations (run_migrations host.migrate cfg.database_url w)

module _ {W P C R : Type 0} (host : Host W P C R) where
  -- `httpSrv.Shutdown`, whose error is only logged; then `GracefulStop`.
  after_shutdown : Option Error × W → List Line × W
  after_shutdown (none, w) =
      (info_line (codes "shutting down gracefully") ∷ [], host.graceful_stop w)
  after_shutdown (some e, w) = (
    info_line (codes "shutting down gracefully") ∷ error_line (codes "http shutdown") e ∷ [],
    host.graceful_stop w,
  )

  -- The deferred calls, the last one first.
  close_all : {rate : RatePackage} → Running rate P C R → W → W
  close_all r w =
      close_postgres host.new_pool host.ping host.close_pool r.pool
        (host.close_redis r.redis (host.close_client r.connection w))

  -- From the signal to the end of main.
  unfoldable stop : {rate : RatePackage} → Running rate P C R → W → List Line × W
  unfolding after_shutdown close_all
  stop r w = let (lines, w') = after_shutdown (host.shutdown_http w) in (lines, close_all r w')
