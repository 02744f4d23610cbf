-- ===== src/Hybrid.antt =====
-- services/impl/hybrid_context.go: one context of the chunks that a vector search found and those
-- of whole documents.
pub mod Score
pub mod Select
pub mod Fit
pub mod Build
pub mod Budget
pub mod Keyed
pub mod Distinct
mod Tests
pub mod Sorted
