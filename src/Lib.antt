-- ===== src/Lib.antt =====
-- A model of the Go service `central-auth`, the authentication backend of a set of web and gRPC
-- clients, with the theorems that its components rest on.
--
-- The program. Identities live in Ory Kratos and tokens in Ory Hydra. `BFFService`
-- (internal/service/bff_service.go) keeps browser sessions: an opaque session id stands for Hydra
-- tokens in a session store. `OryAuthService` (internal/service/auth_service.go) gives tokens to
-- gRPC clients and verifies them. Both write revocations to a blacklist. Redis carries the
-- sessions, the blacklist and the device table; a circuit breaker guards it, and the decorators of
-- internal/resilience fall back on an in-process cache and on PostgreSQL while it is out. Logins
-- are published to Kafka, and a consumer writes them to the table `device_sessions`. Rate limiters
-- stand before the HTTP and the gRPC handlers.
--
-- The modules.
-- - Common: lists, options, association maps, integers for durations, and `Try`, a call that may
--   fail, over a world `W`.
-- - Failure: Go's error values as the program inspects them, and `IsInfraError` of
--   internal/resilience/circuit_breaker.go.
-- - Breaker: the circuit breaker of the same file. `allow`, `record_success` and `record_failure`
--   are its three methods; int32 and int64 fields are kept as bit patterns, with wrap-around.
-- - Limit.Window: `allow` and `evictLoop` of internal/http/middleware/rate_limit.go, and
--   Limit.Window.Middleware the rest of it.
--   Limit.Bucket: internal/grpc/interceptor/token_bucket.go and rate_limit.go.
-- - Ports: the Go interfaces that the services call, as records of calls over the world, and the
--   values that cross them. What stands behind an interface is a parameter of its callers.
-- - Bff: `Login`, `ResolveSession`, `doRefresh`, `Logout`, `LogoutAll` and `WhoAmI` of
--   internal/service/bff_service.go. Bff.Revocation states what the blacklist promises.
-- - Auth: the seven operations of internal/service/auth_service.go.
-- - Resilient.Blacklist: internal/resilience/resilient_blacklist.go, itself an implementation of
--   the interface `Blacklist` that the services take.
--   Resilient.Blacklist.Shared: the same over the circuit breaker of Breaker. Breaker.Failing: what
--   calls that fail one after the other do to it.
-- - RedisBlacklist: internal/blacklist/blacklist.go over the commands of the Redis client.
-- - Account: internal/service/account_service.go. Admin: `Block` and `Unblock` of
--   internal/service/admin_blacklist_service.go.
-- - Redis: the commands that the repository sends, over what the server holds, with what Redis
--   documents of them as records of laws. Redis.Keys: keys with different prefixes are apart.
-- - RedisRepository: internal/repository/redis_repository.go with its two Lua scripts. Limit, Scores,
--   Tokens and Logout: the devices, login times and tokens that logins and logouts leave.
--   SessionStore: internal/session/store.go.
-- - Resilient.Sessions and Resilient.Tokens: internal/resilience/resilient_session_store.go and
--   resilient_redis_repo.go. Resilient.Guarded is what their methods have in common.
-- - Csrf: internal/http/middleware/csrf.go on bytes.
-- - Grpc: internal/grpc/interceptor/service_auth.go. Grpc.Server: internal/grpc/server.
--   Grpc.Envelope: recovery.go and request_id.go beside it.
--   Grpc.Idempotency: internal/grpc/interceptor/idempotency.go and
--   internal/resilience/idempotency_guard.go.
-- - UaParser: internal/uaparser/parser.go. Both regular expressions are one search by recursion on
--   the text.
-- - Handlers.Auth, Handlers.Bff, Handlers.Account and Handlers.Admin: auth_handler.go,
--   bff_handler.go, account_handler.go, admin_handler.go and admin_blacklist_handler.go of
--   internal/http/handler.
--   Handlers.Proxy: proxy_handler.go, with bff_session.go and bff_api_bridge.go of
--   internal/http/middleware. Handlers.Guards: cors.go, metrics_allowlist.go and service_auth.go.
-- - Kafka: the channels and the workers of internal/kafka/producer.go, as steps of a lane.
--   Kafka.Startup: `NewProducer`, `Close` and `ShouldStartConsumer`. Kafka.Consumer: `Run` of
--   internal/kafka/consumer.go, one round at a time.
-- - Jwks: the cache of signing keys in internal/hydra/client.go: `get`, `set`, `isStale`,
--   `resolveKey` and `refreshJWKS`.
-- - Devices: the statements of internal/repository/device_session_repository.go, and `process` of
--   internal/kafka/consumer.go. Devices.Port: the repository over a connection that may fail.
-- - Tables: internal/repository/blacklist_pg_repository.go and global_blacklist_pg_repository.go.
--   Admin.Stored: the service of the administration over the second.
-- - Instrumented: the wrappers of internal/service and internal/repository that record metrics.
-- - Http: requests and responses. Http.Query: the raw query of a URL.
-- - Hydra and Hydra.Flow: `Client` of internal/hydra/client.go with `IssueTokens`.
--   Hydra.Trace: the same client with every request recorded. Hydra.Validate: `ValidateAccessToken`
--   over Jwks. Hydra.Port: the client as the interface that the services take.
-- - Kratos: `Client` of internal/kratos/client.go, and Kratos.Port in the same way.
-- - Config: internal/config; Config.Edge: the variables that cors.go and metrics_allowlist.go read.
-- - Tests: concrete services and inputs at which the theorems apply.
--
-- Choices. A call takes the world and returns a result with the next world, so the order of calls
-- and what an early return leaves undone are visible. Times are natural numbers of nanoseconds,
-- durations are integers. A method that runs without interference is one step; a history is a list
-- of steps. Two loops run on fuel: the polling of `doRefresh`, which waits a quarter of a second in
-- each round and gives up after two and a half seconds, so that ten rounds are enough, and the
-- chunks of `LogoutAll`, where the number of devices is enough since each round drops at least one.
-- Token buckets count exact fractions of a token where the source has float64. A round
-- trip to Redis is answered or fails on the link; when it fails, the server has run the command, the
-- transaction or the Lua script, or not, and of a pipeline any number of the first commands.
--
-- Not modelled. Log lines, the registry of metrics, message texts, and the middleware that only
-- observes a request; the Redis client, the transport of HTTP, the JSON codecs, the JWT library,
-- the parsing of URLs, of addresses and of RSA keys, HMAC and random texts, which are parameters;
-- the wiring in cmd/server/main.go, the opening of connections in internal/config/db.go and the
-- migrations, which have no logic apart from the calls they make; and interleavings
-- within one method.
pub mod Common
pub mod Failure
pub mod Breaker
pub mod Limit
pub mod Ports
pub mod Bff
pub mod Jwks
pub mod Devices
pub mod Resilient
pub mod Auth
pub mod Account
pub mod RedisBlacklist
pub mod Admin
pub mod Redis
pub mod RedisRepository
pub mod SessionStore
pub mod Csrf
pub mod Grpc
pub mod Handlers
pub mod Kafka
pub mod Http
pub mod Instrumented
pub mod Hydra
pub mod Kratos
pub mod Config
pub mod Tables
pub mod Tests
pub mod UaParser
