-- ===== src/Lib.antt =====
-- The intake service of JobStream: job applications come in over gRPC or, through a gateway, over
-- HTTP; they are brought into one canonical form, validated, deduplicated in Redis and stored in
-- Postgres together with an event for the outbox. Two command line programs are its clients.
--
-- How a submission passes through the parts, and where each is modelled. Paths are from the
-- repository's root; `intake/` stands for services/intake/internal/.
--   Clients (sources/dashboard-cli/cmd/dashboard-cli/main.go and
--     sources/scraper/cmd/scraper/main.go): the two programs, from the parsed flags to the exit.
--     DashboardCli (sources/dashboard-cli/internal/submit/submit.go) has BuildRequest and Run,
--     Scraper (sources/scraper/internal/stats, generator and runner) the load test and its summary.
--   Gateway (intake/httpgateway/gateway.go): Handler, withCORS, handleSubmit, parseSource,
--     parseAppliedAt, grpcCodeToHTTP. It forwards the caller's authorization to the gRPC server.
--   Stubs (gen/go/jobstream/v1/intake_grpc.pb.go): the method names, the client methods and the
--     methods' handlers.
--   Service (services/intake/cmd/intake/main.go): the server with its chain of interceptors, the
--     gateway as its client, and in Service/Startup the order in which the parts are started and
--     stopped.
--   Logging (intake/middleware/logging.go): the outermost interceptor, request ids and log records.
--   Middleware (intake/middleware/errors.go and recovery.go): recovery, then Auth, then RateLimit,
--     then the handler.
--   Auth (intake/auth/auth.go): the interceptor that asks for a bearer token; Auth/Jwt the verifier
--     and the types that the clients mint tokens with. Rpc holds what grpc-go gives to interceptors.
--   RateLimit (intake/ratelimit/ratelimit.go): one limiter for each user.
--   Server (intake/server/server.go): SubmitApplication, BatchSubmitApplication,
--     GetApplicationStatus and submitOne. A handler is a `Program` (Server/Calls): a tree of the
--     calls that it makes of the clock, the context, the deduper and the repository. `run` makes
--     them one after another on a world W, as in Server/Alone; `step` makes one, so that
--     Server/Interleave can let any number of requests take turns.
--   Canonical (intake/canonical/event.go): the event and Validate.
--   Transform (intake/transform/transform.go): one transformer for each source.
--   Dedup (intake/dedup/dedup.go): Deduper, NoopDeduper, NewRedis, Key.
--   Repo (intake/repo/repo.go and postgres.go, intake/db): InsertWithOutbox and GetByIDAndUserID;
--     Repo/Queries the statements of intake/db/query.sql.go with their arguments and columns;
--     Repo/Connect has NewPostgres, Close and RunMigrations.
--   Config (intake/config/config.go): Load and its readers of the environment.
--   Proto (gen/go/jobstream/v1): the enums and the messages.
--   Errors, Strings, Base: Go's errors, its text functions, and what all modules share.
--   Examples: the foreign parts as small programs in memory, and runs over them.
--
-- Conventions. A text is the list of its code points; the byte lengths that Go uses are written out
-- where they matter. An int32 is an integer, and a conversion to int16 wraps around. A point in time
-- is a number of nanoseconds. The sequence of early returns of a Go function becomes a chain of
-- functions `after_...`, one for the rest of the code after each call that can fail. A call that
-- fails may have changed the world. Loops run over lists, except for the load test's: it has the
-- total as fuel, which is enough since each round takes one application at least.
--
-- Code of other modules is a parameter: unicode.ToLower of one rune, net/url, proto.Marshal, JSON
-- and RFC 3339 parsing, SHA-256, os.Getenv, strconv.ParseFloat, slog's UnmarshalText,
-- uuid.NewString, go-redis (`Redis`, with `RedisLaws`), pgx (`Pool`, with `PoolLaws` and
-- `SelectLaws`, and below the queries `Driver`, with `DriverLaws`), golang-migrate, golang-jwt
-- (with `JwtLaws`), golang.org/x/time/rate, gofakeit, and the connection of a client (with
-- `Delivers`: a call comes to the server's handler, and its status comes back). The laws say what
-- these are documented to do; Examples/Laws, Examples/Rig and Examples/Storage have them for the
-- programs in memory.
--
-- The theorems on submissions assume of the deduper that it answers every call and forgets nothing
-- meanwhile (`DeduperContract`), and of the repository that an insert adds one row or none
-- (`RepoContract`); an insert may fail. Dedup/Contract and Repo/Postgres/Contract relate the Redis
-- deduper and the Postgres repository to these contracts. If Redis fails, the code goes on without a
-- claim by intention: Server/Alone/Outage shows what this means. A claim that expires is free again,
-- which lies outside the contracts, and so does a commit whose answer is lost: PoolLaws allow it,
-- and CommitLaws, which RepoContract needs, exclude it. A TIMESTAMPTZ keeps whole microseconds
-- (Repo/Timestamps); the laws say so for the years 1 to 9999, which protobuf's Timestamp is defined
-- for, and say nothing of any other time.
--
-- Not modelled: parsing of flags, signals, and the goroutines that serve the listeners; what the
-- logger writes, its level included, and the record that recovery logs of a panic; the
-- reflection code of the generated messages, the service descriptor and its registration; the files
-- of SQL migrations, which are data; and the browser extension, which is in another language.
pub mod Base
pub mod Strings
pub mod Proto
pub mod Errors
pub mod Canonical
pub mod Transform
pub mod Dedup
pub mod Repo
pub mod Server
pub mod Rpc
pub mod Stubs
pub mod Config
pub mod Auth
pub mod RateLimit
pub mod Middleware
pub mod Logging
pub mod Gateway
pub mod Service
pub mod Scraper
pub mod DashboardCli
pub mod Clients
pub mod Examples
