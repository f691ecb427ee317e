-- ===== src/Auth.antt =====
-- components/platform/business_logic/auth: limits on sign-in attempts, and what a proxy's headers say.
pub mod People
pub mod Secrets
pub mod LoginAttempts
pub mod LoginGate
pub mod Lockout
pub mod Tokens
pub mod Sessions
mod Tests
