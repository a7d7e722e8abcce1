-- ===== src/Auth.antt =====
-- internal/auth: sessions of the one admin, the login limiter, the login handler and the guards of
-- the API. Times are nanoseconds since Go's zero time.
pub mod LoginLimiter
pub mod Service
pub mod Handlers
pub mod Guards
mod Tests
