-- ===== src/Router.antt =====
-- services/impl/router_service_impl.go: the client of the LLM router.
pub mod Wire
pub mod Reliability
pub mod Limits
pub mod Send
pub mod Providers
pub mod Retries
pub mod Capped
pub mod Available
mod Tests
