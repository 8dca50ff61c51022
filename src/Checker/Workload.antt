-- ===== src/Checker/Workload.antt =====
-- internal/checker/workload: the checker of deployments, stateful sets and daemon sets.
pub mod Pods
pub mod Suggestions
pub mod Diagnose
pub mod Check
pub mod Tags
mod Tests
