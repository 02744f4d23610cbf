-- ===== src/Cache.antt =====
-- services/impl/cache_service_impl.go: the cache of retrieved document context, in Redis or in the
-- process's memory, and the service that reads through it.
pub mod Keys
pub mod Service
pub mod Through
pub mod Match
pub mod Memory
pub mod Invalidate
pub mod RoundTrip
mod Tests
