-- ===== src/Ai.antt =====
-- internal/ai: the guards in front of the AI provider.
pub mod Breaker
pub mod Budget
pub mod ChatBudget
pub mod Cache
pub mod Manager
pub mod Agent
