-- ===== src/Handlers.antt =====
-- handlers/agent_handlers.go: the HTTP interface over the services.
pub mod Http
pub mod Config
pub mod Crud
pub mod Query
pub mod Prompt
pub mod Messages
pub mod Execute
pub mod Endings
pub mod Recorded
pub mod Asked
pub mod Pages
pub mod Checks
pub mod Accepted
pub mod Knowledge
pub mod Internal
pub mod Services
pub mod Reached
pub mod Samples
mod Tests
