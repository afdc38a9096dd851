-- ===== src/Orchestrator.antt =====
-- The Probing Orchestrator, internal/components/orchestrator.
pub mod Store
pub mod Manager
