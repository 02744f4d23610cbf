-- ===== src/Models.antt =====
-- The data of models/: one child for each file of the package that the other modules use.
pub mod Memory
pub mod Document
pub mod Agent
pub mod Services
pub mod Hybrid
pub mod Execution
