-- ===== src/Controller.antt =====
-- internal/controller: the reconcilers of the operator's resources.
pub mod Diagnose
pub mod Logs
pub mod EventLog
pub mod Troubleshoot
pub mod Notify
pub mod Plugins
pub mod TeamHealth
