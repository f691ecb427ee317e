-- ===== src/Foundation/LogThrottle/Tests.antt =====
-- Four calls, of which two log.
