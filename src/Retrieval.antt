-- ===== src/Retrieval.antt =====
-- services/impl/document_context_impl.go: the chunks of whole documents, page by page, and the text
-- of retrieved chunks that goes into a prompt.
pub mod Pages
pub mod Inject
pub mod Full
pub mod Ordered
pub mod Fetched
pub mod Injected
mod Tests
