-- ===== src/Engine.antt =====
-- The engine workers: src/engine.
pub mod Pool
