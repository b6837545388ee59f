-- ===== src/Backend.antt =====
-- The package src/statebraid/backend.
pub mod Observation
pub mod Conformance
pub mod Descriptor
