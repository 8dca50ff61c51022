-- ===== src/Dashboard.antt =====
-- internal/dashboard: the parts of the dashboard server.
pub mod Queue
