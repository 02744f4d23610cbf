-- ===== src/Executions.antt =====
-- services/impl/execution_service_impl.go: the records of executions, and what becomes of them.
pub mod Service
pub mod Status
pub mod Lifecycle
pub mod Cancel
pub mod Refines
mod Tests
