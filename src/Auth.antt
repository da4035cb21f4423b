-- ===== src/Auth.antt =====
-- The authorization service (auth-service/app): refresh tokens, clients, users, grants, lockout, and
-- the token endpoint that joins them.
pub mod Tokens
pub mod Crypto
pub mod Claims
pub mod Accounts
pub mod Administration
pub mod Lockout
pub mod Grants
pub mod Endpoint
pub mod RateLimiter
