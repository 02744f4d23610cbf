-- ===== src/Hybrid/Build.antt =====
-- `BuildHybridContext` of services/impl/hybrid_context.go. The builder is its configuration; the
-- retrieval time is given.
use tas_agent_builder.Base.{
  if◌then◌else◌, codes, List, [], ◌∷◌, Option, none, some, map, length, ℤ, pos, ◌+ℤ◌,
}
use tas_agent_builder.Floats.{Float, FloatOps}
use tas_agent_builder.Json.{Fields, end, field, number}
use tas_agent_builder.Models.Document.{RetrievedChunk, ContextStrategy}
use tas_agent_builder.Models.Hybrid.{
  HybridContextConfig, ScoredChunk, Source, from_vector, from_full_doc, from_both,
  HybridContextResult, default_hybrid_context_config,
}
use tas_agent_builder.Hybrid.Score.{Parts, score_all_chunks}
use tas_agent_builder.Hybrid.Select.{deduplicate_by_content, assign_priority_tiers}
use tas_agent_builder.Hybrid.Fit.{fit_to_token_budget}

unfoldable pub new_hybrid_context_builder :
    FloatOps → Option HybridContextConfig → HybridContextConfig
new_hybrid_context_builder f none = default_hybrid_context_config f
new_hybrid_context_builder f (some cfg) = cfg

unfoldable pub set_config : Option HybridContextConfig → HybridContextConfig → HybridContextConfig
set_config none cfg = cfg
set_config (some new) cfg = new

unfoldable pub with_vector_weight : Float → HybridContextConfig → HybridContextConfig
with_vector_weight weight cfg = record cfg { vector_weight = weight }

unfoldable pub with_full_doc_weight : Float → HybridContextConfig → HybridContextConfig
with_full_doc_weight weight cfg = record cfg { full_doc_weight = weight }

unfoldable pub with_token_budget : ℤ → HybridContextConfig → HybridContextConfig
with_token_budget budget cfg = record cfg { token_budget = budget }

-- The sum of the loop over the selected chunks.
unfoldable pub total_tokens : List ScoredChunk → ℤ
total_tokens [] = pos 0
total_tokens (chunk ∷ chunks) = chunk.estimated_tokens +ℤ total_tokens chunks

abbrev in_vector : Source → ℤ
in_vector from_vector = pos 1
in_vector from_full_doc = pos 0
in_vector from_both = pos 1

abbrev in_full_doc : Source → ℤ
in_full_doc from_vector = pos 0
in_full_doc from_full_doc = pos 1
in_full_doc from_both = pos 1

unfoldable pub vector_count : List ScoredChunk → ℤ
vector_count [] = pos 0
vector_count (chunk ∷ chunks) = in_vector chunk.source +ℤ vector_count chunks

unfoldable pub full_doc_count : List ScoredChunk → ℤ
full_doc_count [] = pos 0
full_doc_count (chunk ∷ chunks) = in_full_doc chunk.source +ℤ full_doc_count chunks

unfoldable pub retrieved : ScoredChunk → RetrievedChunk
retrieved sc = let chunk = sc.chunk in record chunk { score = sc.combined_score }

unfoldable pub hybrid_metadata :
    FloatOps → HybridContextConfig → List RetrievedChunk → List RetrievedChunk → Fields
hybrid_metadata f cfg vector_chunks full_doc_chunks =
    field (codes "vector_weight") (number cfg.vector_weight) (
      field (codes "full_doc_weight") (number cfg.full_doc_weight) (
        field (codes "position_weight") (number cfg.position_weight) (
          field (codes "summary_boost") (number cfg.summary_boost) (
            field (codes "token_budget") (number (f.of_int cfg.token_budget)) (
              field (codes "original_vector") (number (f.of_int (pos (length vector_chunks)))) (
                field (codes "original_full_doc") (number (f.of_int (pos (length full_doc_chunks))))
                  end))))))

unfoldable pub build_hybrid_context :
    Parts
    → HybridContextConfig
    → ℤ
    → List RetrievedChunk
    → List RetrievedChunk
    → HybridContextResult
unfolding score_all_chunks deduplicate_by_content assign_priority_tiers fit_to_token_budget
    total_tokens vector_count full_doc_count retrieved hybrid_metadata
build_hybrid_context parts cfg took vector_chunks full_doc_chunks =
    let scored = score_all_chunks parts cfg vector_chunks full_doc_chunks in
    let (distinct, removed) =
      if cfg.deduplicate_by_content then deduplicate_by_content parts scored else (scored, pos 0) in
    let tiered = assign_priority_tiers parts cfg.priority_tiers distinct in
    let (selected, breakdown) = fit_to_token_budget parts cfg tiered in
    record {
      document_context = record {
        chunks = map retrieved selected;
        total_tokens = total_tokens selected;
        truncated_chunks = pos 0;
        strategy = ContextStrategy.hybrid;
        retrieval_time_ms = took;
        metadata = some (hybrid_metadata parts.floats cfg vector_chunks full_doc_chunks);
      };
      scored_chunks = selected;
      vector_chunk_count = vector_count selected;
      full_doc_chunk_count = full_doc_count selected;
      duplicates_removed = removed;
      tier_breakdown = breakdown;
      config = cfg;
    }
