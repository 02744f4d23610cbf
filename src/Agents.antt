-- ===== src/Agents.antt =====
-- services/impl/agent_service_impl.go: the agents in the database, and who may see and change them.
pub mod Requests
pub mod Service
pub mod Listing
pub mod Access
pub mod Wanted
pub mod Isolation
pub mod Listed
pub mod Stored
mod Tests
