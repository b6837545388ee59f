-- ===== src/Qualification.antt =====
-- The directory qualification: the audits of a backend.
pub mod Requests
pub mod Determinism
pub mod Canary
