-- ===== src/Generator.antt =====
-- The Probing Directive Generator, internal/components/generator.
pub mod Mock
pub mod Manager
