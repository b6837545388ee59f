-- ===== src/Tests.antt =====
-- Concrete inputs, and the theorems at them.
pub mod Fixtures
mod Policy
mod Coordinator
mod Conformance
mod Managed
mod Mlx
mod MlxProbe
mod ManagedCalls
mod ManagedLookup
mod Backend
mod Adapters
mod ManagedAccounts
mod Printed
mod Reference
mod Audit
mod Doctor
mod Canary
