-- ===== src/MultiPass.antt =====
-- services/impl/multipass_service_impl.go: documents too long for one request are cut into
-- segments, each is sent to the router, and the partial results are put together.
pub mod Segments
pub mod Coverage
pub mod Prompts
pub mod Execute
pub mod Passes
mod Tests
