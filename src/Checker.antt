-- ===== src/Checker.antt =====
-- internal/checker: what runs the checkers and combines their results.
pub mod Registry
pub mod Workload
pub mod Plugin
pub mod Convert
