-- ===== src/Service.antt =====
-- The HTTP service's checks: src/service.
pub mod Keys
pub mod Base64
