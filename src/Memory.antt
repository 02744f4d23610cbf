-- ===== src/Memory.antt =====
-- services/memory: the memory tiers of a session and the services over them.
pub mod Tokens
pub mod ShortTerm
pub mod Working
pub mod LongTerm
pub mod Prompts
pub mod Consolidation
pub mod State
pub mod Formatted
pub mod Unified
pub mod Samples
