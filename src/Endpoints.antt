-- ===== src/Endpoints.antt =====
-- components/platform/endpoints: the guards in front of every handler.
pub mod Requests
pub mod CsrfGuard
pub mod OriginGuard
pub mod ProxyTrust
pub mod TenantGuard
mod Tests
