-- ===== src/Causal.antt =====
-- internal/causal: the correlation of issues into groups with a likely common cause.
pub mod Types
pub mod Dedup
pub mod Temporal
pub mod Graph
pub mod Rules
pub mod Correlator
