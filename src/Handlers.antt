-- ===== src/Handlers.antt =====
-- internal/http/handler: the status that the HTTP handlers choose around the services. Log lines and
-- the texts of the answers are left out; a request body that gin refuses to bind is `none`.
pub mod Auth
pub mod Account
pub mod Admin
pub mod Bff
pub mod Proxy
pub mod Text
pub mod Guards
pub mod Transports
use central_auth.Common.{ℕ}

-- What a handler writes: the status, and the body where it is not an error text.
pub data Reply (A : Type 0) : Type 0 where
  success : (status : ℕ) → A → Reply A
  failure : (status : ℕ) → Reply A
