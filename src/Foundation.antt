-- ===== src/Foundation.antt =====
-- The foundation layer (components/foundation).
pub mod Text
pub mod Numbers
pub mod ICal
pub mod LogThrottle
pub mod Json
