-- ===== src/Adapters.antt =====
-- The package src/statebraid/adapters.
pub mod LlamaCpp
pub mod LlamaCppManaged
pub mod Mlx
