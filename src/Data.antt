-- ===== src/Data.antt =====
-- The data layer (components/data).
pub mod ForeignKeys
pub mod ConnectionPool
pub mod Metadata
pub mod Crud
