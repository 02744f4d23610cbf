-- ===== src/Validation.antt =====
-- services/impl/validation.go: the checks on an agent's configuration before it is stored.
pub mod Settings
pub mod Requests
pub mod Accepts
pub mod Details
mod Tests
