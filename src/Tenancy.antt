-- ===== src/Tenancy.antt =====
-- components/platform/business_logic/tenancy: which tenant a request belongs to, and its resources.
pub mod Resolver
pub mod Registry
mod Tests
