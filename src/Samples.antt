-- ===== src/Samples.antt =====
-- Concrete inputs for the theorems, and what these say there.
pub mod Data
mod Registry
mod Queues
mod Tool
mod Streams
mod Views
mod Parts
mod Programs
mod Lifecycles
mod Members
mod Journeys
mod Platform
