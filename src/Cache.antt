-- ===== src/Cache.antt =====
-- The package src/statebraid/cache.
pub mod Key
pub mod Policy
pub mod Generation
pub mod Namespace
pub mod Coordinator
