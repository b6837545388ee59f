-- ===== src/Compat.antt =====
-- The package src/statebraid/compat.
pub mod LlamaCpp
pub mod Mlx
