-- ===== src/Models/Hybrid.antt =====
-- models/document_context.go: the settings and the results of hybrid retrieval.
use tas_agent_builder.Base.{Bool, true, Str, codes, List, [], ◌∷◌, ℤ, pos}
use tas_agent_builder.Floats.{Float, FloatOps}
use tas_agent_builder.Models.Document.{RetrievedChunk, DocumentContextResult}

pub record HybridPriorityTier : Type 0 where
  pub name : Str
  pub min_score : Float
  pub max_tokens : ℤ
  pub percentage : Float

pub record HybridContextConfig : Type 0 where
  pub vector_weight : Float
  pub full_doc_weight : Float
  pub position_weight : Float
  pub summary_boost : Float
  pub vector_top_k : ℤ
  pub vector_min_score : Float
  pub full_doc_max_chunks : ℤ
  pub token_budget : ℤ
  pub include_summaries : Bool
  pub deduplicate_by_content : Bool
  pub priority_tiers : List HybridPriorityTier

unfoldable pub default_tier : FloatOps → Str → Float → Float → HybridPriorityTier
default_tier f name min_score percentage = record {
  name = name;
  min_score = min_score;
  max_tokens = pos 0;
  percentage = percentage;
}

unfoldable pub default_hybrid_context_config : FloatOps → HybridContextConfig
unfolding default_tier
default_hybrid_context_config f = record {
  vector_weight = f.ratio 6 10;
  full_doc_weight = f.ratio 3 10;
  position_weight = f.ratio 1 10;
  summary_boost = f.ratio 15 10;
  vector_top_k = pos 20;
  vector_min_score = f.ratio 5 10;
  full_doc_max_chunks = pos 50;
  token_budget = pos 8000;
  include_summaries = true;
  deduplicate_by_content = true;
  priority_tiers =
      default_tier f (codes "high_relevance") (f.ratio 8 10) (f.ratio 5 10)
      ∷ default_tier f (codes "medium_relevance") (f.ratio 6 10) (f.ratio 3 10)
      ∷ default_tier f (codes "context") (f.ratio 0 1) (f.ratio 2 10)
      ∷ [];
}

-- The three values of `Source`.
pub data Source : Type 0 where
  from_vector from_full_doc from_both : Source

pub record ScoredChunk : Type 0 where
  pub chunk : RetrievedChunk
  pub vector_score : Float
  pub position_score : Float
  pub full_doc_score : Float
  pub boost : Float
  pub combined_score : Float
  pub source : Source
  pub priority_tier : Str
  pub estimated_tokens : ℤ

pub record HybridContextResult : Type 0 where
  pub document_context : DocumentContextResult
  pub scored_chunks : List ScoredChunk
  pub vector_chunk_count : ℤ
  pub full_doc_chunk_count : ℤ
  pub duplicates_removed : ℤ
  pub tier_breakdown : List (Str × ℤ)
  pub config : HybridContextConfig
