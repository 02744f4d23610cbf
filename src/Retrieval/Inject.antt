-- ===== src/Retrieval/Inject.antt =====
-- `FormatContextForInjection` of services/impl/document_context_impl.go. The headers of documents
-- are written as in the segments of multi-pass processing, by the same lines.
use tas_agent_builder.Base.{
  ℕ, suc, ◌-◌, if◌then◌else◌, ◌&&◌, Bool, true, false, Str, codes, List, [], ◌∷◌, ◌++◌, Option,
  none, some, length, ℤ, pos, ◌+ℤ◌, ltb_ℤ,
}
use tas_agent_builder.Floats.{FloatOps}
use tas_agent_builder.Json.{end, field, number}
use tas_agent_builder.Models.Document.{
  RetrievedChunk, DocumentContextResult, ContextInjectionResult, ContextStrategy,
}
use tas_agent_builder.MultiPass.Segments.{Writing, document_header}
use tas_agent_builder.Retrieval.Pages.{estimate_token_count}

unfoldable pub context_start : Str
context_start = 10 ∷ (codes "--- RELEVANT CONTEXT ---" ++ (10 ∷ 10 ∷ []))

unfoldable pub context_end : Str
context_end = 10 ∷ (codes "--- END CONTEXT ---" ++ (10 ∷ []))

unfoldable pub write_chunk : RetrievedChunk → Writing → Writing
unfolding document_header
write_chunk chunk w =
    let headed = document_header chunk w in
    record headed { written = headed.written ++ (chunk.content ++ (10 ∷ [])) }

-- `maxTokens > 0 && currentTokens+chunkTokens > maxTokens`
unfoldable pub exceeds : ℤ → ℤ → RetrievedChunk → Bool
unfolding estimate_token_count
exceeds max_tokens tokens chunk =
    ltb_ℤ (pos 0) max_tokens && ltb_ℤ max_tokens (tokens +ℤ estimate_token_count chunk.content)

-- The loop over the chunks: the text, `includedChunks` and `truncated`.
unfoldable pub include_chunks : ℤ → ℤ → Writing → List RetrievedChunk → Writing × (ℕ × Bool)
unfolding write_chunk exceeds estimate_token_count
include_chunks max_tokens tokens w [] = (w, (0, false))
include_chunks max_tokens tokens w (chunk ∷ chunks) =
    let (written, (included, truncated)) =
      include_chunks max_tokens (tokens +ℤ estimate_token_count chunk.content) (write_chunk chunk w)
        chunks in
    if exceeds max_tokens tokens chunk then (w, (0, true)) else (written, (suc included, truncated))

unfoldable pub no_context : ContextInjectionResult
no_context = record {
  formatted_context = [];
  chunk_count = pos 0;
  document_count = pos 0;
  total_tokens = pos 0;
  strategy = ContextStrategy.off;
  truncated = false;
  metadata = none;
}

abbrev pub start : Writing
start = record { written = context_start; current = []; documents = [] }

unfoldable pub inject :
    FloatOps → DocumentContextResult → Writing × (ℕ × Bool) → ContextInjectionResult
unfolding context_end estimate_token_count
inject f result (w, (included, truncated)) =
    let formatted = w.written ++ context_end in
    let original = length result.chunks in
    record {
      formatted_context = formatted;
      chunk_count = pos included;
      document_count = pos (length w.documents);
      total_tokens = estimate_token_count formatted;
      strategy = result.strategy;
      truncated = truncated;
      metadata = some (
          field (codes "original_chunk_count") (number (f.of_int (pos original)))
            (field (codes "truncated_count") (number (f.of_int (pos (original - included)))) end));
    }

unfoldable pub format_context_for_injection :
    FloatOps → Option DocumentContextResult → ℤ → ContextInjectionResult
unfolding no_context inject include_chunks context_start estimate_token_count
format_context_for_injection f none max_tokens = no_context
format_context_for_injection f (some result) max_tokens = elim result.chunks [
  | [] ↦ no_context
  | chunk ∷ chunks ↦
      inject f result
        (include_chunks max_tokens (estimate_token_count context_start) start (chunk ∷ chunks))
]
