-- ===== src/Agent.antt =====
-- The Probing Agent, internal/components/agent.
pub mod Manager
pub mod Caracal
pub mod Prober
pub mod MockProber
