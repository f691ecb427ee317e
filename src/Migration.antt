-- ===== src/Migration.antt =====
-- components/platform/business_logic/migration: schema migrations.
pub mod Runner
mod Tests
