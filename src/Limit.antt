-- ===== src/Limit.antt =====
-- The rate limiters: one window for each client address (internal/http/middleware/rate_limit.go)
-- and the token bucket of the gRPC server (internal/grpc/interceptor/token_bucket.go).
pub mod Window
pub mod Bucket
