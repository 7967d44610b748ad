-- ===== src/App.antt =====
-- The application: the manager of analysis jobs.
pub mod Jobs
