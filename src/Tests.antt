-- ===== src/Tests.antt =====
-- Concrete inputs for the theorems.
mod Bff
mod Breaker
mod Resilient
mod Auth
mod Limit
mod Jwks
mod Devices
mod RedisBlacklist
mod Account
mod Server
mod SortedSet
mod RedisRepository
mod SessionStore
mod Decorators
mod Csrf
mod Handlers
mod Idempotency
mod Kafka
mod UaParser
mod Clients
mod Operations
